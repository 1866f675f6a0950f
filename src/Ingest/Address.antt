-- ===== src/Ingest/Address.antt =====
-- The topics that are addressed to a device: `<prefix>/<device>/<leaf>`.
use pv_matter.Common.{◌≡◌, ◌↔◌, false, ◌++◌, ◌∷◌, some, arith, >>=-eq-some, ◌∙◌, ap}
use pv_matter.Text.{Text, codes, is_empty, strip_prefix, split_once, Lacks}
use pv_matter.Text.Laws.{
  strip_prefix-append, strip_prefix_sound, split_once-append, split_once_sound,
  contains-eq-false_iff,
}
use pv_matter.Ingest.{address, check_levels}

pub record IsTopic (prefix topic device leaf : Text) : Type 0 where
  pub spelled : topic ≡ prefix ++ (b'/' ∷ (device ++ b'/' ∷ leaf))
  pub named : is_empty device ≡ false
  pub device_level : Lacks b'/' device
  pub leaf_level : Lacks b'/' leaf

guarded-IsTopic :
    (prefix topic d l device leaf : Text)
    → topic ≡ prefix ++ (b'/' ∷ (d ++ b'/' ∷ l))
    → Lacks b'/' d
    → check_levels (d, l) ≡ some (device, leaf)
    → IsTopic prefix topic device leaf
guarded-IsTopic prefix topic d l device leaf spelled lacks e =
    let same_device : d ≡ device = ground arith in
    let same_leaf : l ≡ leaf = ground arith in
    record {
      spelled = rw (← same_device, ← same_leaf) spelled;
      named = rw (← same_device) (ground arith);
      device_level = rw (← same_device) lacks;
      leaf_level = rw (← same_leaf) ((contains-eq-false_iff b'/' l).0 (ground arith));
    }

address_sound :
    (prefix topic device leaf : Text)
    → address prefix topic ≡ some (device, leaf)
    → IsTopic prefix topic device leaf
unfolding address
address_sound prefix topic device leaf e =
    let (behind, s1, e1) = >>=-eq-some (strip_prefix topic prefix) _ e in
    let (rest, s2, e2) = >>=-eq-some (strip_prefix behind (codes "/")) _ e1 in
    let ((d, l), s3, e3) = >>=-eq-some (split_once b'/' rest) _ e2 in
    let (split, lacks) = split_once_sound b'/' rest d l s3 in
    guarded-IsTopic prefix topic d l device leaf
      (strip_prefix_sound topic prefix s1
        ∙ ap (λ t. prefix ++ t)
            (strip_prefix_sound behind (codes "/") s2 ∙ ap {B = Text} (λ t. b'/' ∷ t) split))
      lacks e3

address_complete :
    (prefix topic device leaf : Text)
    → IsTopic prefix topic device leaf
    → address prefix topic ≡ some (device, leaf)
unfolding address
address_complete prefix topic device leaf t = rw (
  t.spelled,
  strip_prefix-append prefix _,
  strip_prefix-append (codes "/") (device ++ b'/' ∷ leaf),
  split_once-append b'/' device leaf t.device_level,
  t.named,
  (contains-eq-false_iff b'/' leaf).1 t.leaf_level,
)

-- A topic has a device and a leaf exactly if it is spelled with the prefix and two more levels, the
-- first of them not empty.
pub address_iff :
    (prefix topic device leaf : Text)
    → (address prefix topic ≡ some (device, leaf)) ↔ IsTopic prefix topic device leaf
address_iff prefix topic device leaf =
    (address_sound prefix topic device leaf, address_complete prefix topic device leaf)
