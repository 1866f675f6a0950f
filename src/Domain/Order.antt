-- ===== src/Domain/Order.antt =====
-- In which orders messages of different topics may come without a difference to the state.
use pv_matter.Common.{List, [], ◌∷◌, Option, some, ◌≡◌, ◌∙◌, refl, sym, ap, arith}
use pv_matter.Int.{ℤ}
use pv_matter.Senml.{Pack}
use pv_matter.Domain.Status.{LinkStatus}
use pv_matter.Domain.Info.{InverterInfo}
use pv_matter.Domain.Snapshot.{
  PvSnapshot, apply_records, enforce_link_mask, empty_scan, store_scan, apply_pack, set_status,
}
use pv_matter.Domain.{DomainMsg, info, pack, status, State, apply, apply_all}

-- The messages of the identity, and the others, each in their order.
abbrev pub identities : List DomainMsg → List DomainMsg
identities [] = []
identities (info i ∷ msgs) = info i ∷ identities msgs
identities (pack p ∷ msgs) = identities msgs
identities (status l ∷ msgs) = identities msgs

abbrev pub measurements : List DomainMsg → List DomainMsg
measurements [] = []
measurements (info i ∷ msgs) = measurements msgs
measurements (pack p ∷ msgs) = pack p ∷ measurements msgs
measurements (status l ∷ msgs) = status l ∷ measurements msgs

abbrev rated : Option ℤ → PvSnapshot → PvSnapshot
rated w s = record s { max_power_w = w }

rated-enforce_link_mask :
    (w : Option ℤ) (s : PvSnapshot) → enforce_link_mask (rated w s) ≡ rated w (enforce_link_mask s)
unfolding enforce_link_mask
rated-enforce_link_mask w s = ground arith

rated-apply_pack :
    (w : Option ℤ) (s : PvSnapshot) (p : Pack) → apply_pack (rated w s) p ≡ rated w (apply_pack s p)
unfolding apply_pack
rated-apply_pack w s p =
    rated-enforce_link_mask w (store_scan s (apply_records p.base_time p.records (empty_scan s)))

rated-set_status :
    (w : Option ℤ) (s : PvSnapshot) (l : LinkStatus)
    → set_status (rated w s) l ≡ rated w (set_status s l)
unfolding set_status
rated-set_status w s l = rated-enforce_link_mask w (record s { link = l })

pub apply_pack_info :
    (s : State) (p : Pack) (i : InverterInfo)
    → apply (apply s (pack p)) (info i) ≡ apply (apply s (info i)) (pack p)
unfolding apply
apply_pack_info s p i =
    ap (λ (t : PvSnapshot). record s { snapshot = t; info = some i })
      (sym (rated-apply_pack i.max_power_w s.snapshot p))

pub apply_status_info :
    (s : State) (l : LinkStatus) (i : InverterInfo)
    → apply (apply s (status l)) (info i) ≡ apply (apply s (info i)) (status l)
unfolding apply
apply_status_info s l i =
    ap (λ (t : PvSnapshot). record s { snapshot = t; info = some i })
      (sym (rated-set_status i.max_power_w s.snapshot l))

-- An identity may go in front of all packs and statuses.
info_first :
    (s : State) (i : InverterInfo) (msgs : List DomainMsg)
    → apply (apply_all s (measurements msgs)) (info i)
      ≡ apply_all (apply s (info i)) (measurements msgs)
unfolding apply_all
info_first s i [] = refl
info_first s i (info j ∷ msgs) = info_first s i msgs
info_first s i (pack p ∷ msgs) =
    info_first (apply s (pack p)) i msgs
    ∙ ap (λ t. apply_all t (measurements msgs)) (apply_pack_info s p i)
info_first s i (status l ∷ msgs) =
    info_first (apply s (status l)) i msgs
    ∙ ap (λ t. apply_all t (measurements msgs)) (apply_status_info s l i)

identities_first :
    (s : State) (is msgs : List DomainMsg)
    → apply_all (apply_all s (measurements msgs)) (identities is)
      ≡ apply_all (apply_all s (identities is)) (measurements msgs)
unfolding apply_all
identities_first s [] msgs = refl
identities_first s (info i ∷ is) msgs =
    ap (λ t. apply_all t (identities is)) (info_first s i msgs)
    ∙ identities_first (apply s (info i)) is msgs
identities_first s (pack p ∷ is) msgs = identities_first s is msgs
identities_first s (status l ∷ is) msgs = identities_first s is msgs

sorted :
    (s : State) (msgs : List DomainMsg)
    → apply_all s msgs ≡ apply_all (apply_all s (identities msgs)) (measurements msgs)
unfolding apply_all
sorted s [] = refl
sorted s (info i ∷ msgs) = sorted (apply s (info i)) msgs
sorted s (pack p ∷ msgs) =
    sorted (apply s (pack p)) msgs
    ∙ ap (λ t. apply_all t (measurements msgs)) (identities_first s msgs (pack p ∷ []))
sorted s (status l ∷ msgs) =
    sorted (apply s (status l)) msgs
    ∙ ap (λ t. apply_all t (measurements msgs)) (identities_first s msgs (status l ∷ []))

-- The state does not depend on when the identity comes: two runs with the same `info` messages in the same
-- order, and the same packs and statuses in the same order, end in the same state, however the ones were mixed
-- with the others.
pub apply_all_interleaved :
    (s : State) (left right : List DomainMsg)
    → identities left ≡ identities right
    → measurements left ≡ measurements right
    → apply_all s left ≡ apply_all s right
apply_all_interleaved s left right i m =
    sorted s left
    ∙ ap (λ is. apply_all (apply_all s is) (measurements left)) i
    ∙ ap (apply_all (apply_all s (identities right))) m
    ∙ sym (sorted s right)
