-- ===== src/Matter/Descriptor.antt =====
-- src/matter/desc_tags.rs: `TaggedDescHandler`, which has a tag list of its own and leaves the rest to the
-- descriptor handler of rs-matter, a parameter.
use pv_matter.Common.{ℕ, zero, suc, ◌≡◌, refl, List, map, Option, some, map_opt, Result}
use pv_matter.Text.{Text}
use pv_matter.Matter.Tlv.{Builder, ArrayRead, read_array}
use pv_matter.Matter.Node.{SemanticTag}

-- The fields that `write_tag` writes: a nullable, two numbers, and an optional nullable.
pub record SemanticTagStruct : Type 0 where
  pub mfg_code : Option ℕ
  pub namespace_id : ℕ
  pub tag : ℕ
  pub label : Option (Option Text)

unfoldable pub write_tag : SemanticTag → SemanticTagStruct
write_tag tag = record {
  mfg_code = tag.mfg_code;
  namespace_id = tag.namespace_id;
  tag = tag.tag;
  label = map_opt some tag.label;
}

-- What rs-matter's `DescHandler` offers to the wrapper: `H` is its state, `Ctx` the context of a read,
-- `Types` and `Ids` are the array builders.
pub record DescHandler (H Ctx Types Ids P E : Type 0) : Type 0 where
  pub dataver : H → ℕ
  pub dataver_changed : H → H
  pub device_type_list : H → Ctx → Types → Result P E
  pub server_list : H → Ctx → Ids → Result P E
  pub client_list : H → Ctx → Ids → Result P E
  pub parts_list : H → Ctx → Ids → Result P E

pub record TaggedDescHandler (H : Type 0) : Type 0 where
  pub inner : H
  pub tags : List SemanticTag

module _ {H Ctx Types Ids P E : Type 0} (desc : DescHandler H Ctx Types Ids P E) where
  unfoldable pub dataver : TaggedDescHandler H → ℕ
  dataver h = desc.dataver h.inner

  unfoldable pub dataver_changed : TaggedDescHandler H → TaggedDescHandler H
  dataver_changed h = record h { inner = desc.dataver_changed h.inner }

  unfoldable pub device_type_list : TaggedDescHandler H → Ctx → Types → Result P E
  device_type_list h ctx builder = desc.device_type_list h.inner ctx builder

  unfoldable pub server_list : TaggedDescHandler H → Ctx → Ids → Result P E
  server_list h ctx builder = desc.server_list h.inner ctx builder

  unfoldable pub client_list : TaggedDescHandler H → Ctx → Ids → Result P E
  client_list h ctx builder = desc.client_list h.inner ctx builder

  unfoldable pub parts_list : TaggedDescHandler H → Ctx → Ids → Result P E
  parts_list h ctx builder = desc.parts_list h.inner ctx builder

  unfoldable pub tag_list :
      Builder SemanticTagStruct P E → TaggedDescHandler H → Ctx → ArrayRead P → Result P E
  tag_list b h ctx builder = read_array b (map write_tag h.tags) builder

  -- `n` changes of the data version, of the wrapper and of what it wraps.
  abbrev pub changed_times : ℕ → TaggedDescHandler H → TaggedDescHandler H
  changed_times zero h = h
  changed_times (suc n) h = changed_times n (dataver_changed h)

  abbrev pub inner_changed : ℕ → H → H
  inner_changed zero h = h
  inner_changed (suc n) h = inner_changed n (desc.dataver_changed h)

  changed_times-inner :
      (n : ℕ) (h : TaggedDescHandler H)
      → changed_times n h ≡ record h { inner = inner_changed n h.inner }
  unfolding dataver_changed
  changed_times-inner zero h = refl
  changed_times-inner (suc n) h = changed_times-inner n (dataver_changed h)

  -- After any number of changes, the wrapper answers a read as what it wraps does after as many changes, but
  -- for the tag list, which is what it was.
  pub record Wraps (n : ℕ) (h : TaggedDescHandler H) (ctx : Ctx) : Type 0 where
    pub dataver : dataver (changed_times n h) ≡ desc.dataver (inner_changed n h.inner)
    pub device_types :
        (b : Types)
        → device_type_list (changed_times n h) ctx b
          ≡ desc.device_type_list (inner_changed n h.inner) ctx b
    pub servers :
        (b : Ids)
        → server_list (changed_times n h) ctx b ≡ desc.server_list (inner_changed n h.inner) ctx b
    pub clients :
        (b : Ids)
        → client_list (changed_times n h) ctx b ≡ desc.client_list (inner_changed n h.inner) ctx b
    pub parts :
        (b : Ids)
        → parts_list (changed_times n h) ctx b ≡ desc.parts_list (inner_changed n h.inner) ctx b
    pub tags :
        (b : Builder SemanticTagStruct P E) (r : ArrayRead P)
        → tag_list b (changed_times n h) ctx r ≡ tag_list b h ctx r

  -- The wrapper of a descriptor handler, with any number of changes of its data version, answers every read
  -- as the wrapped handler with as many changes does, and a read of the tag list as at the start.
  pub changed_times-Wraps : (n : ℕ) (h : TaggedDescHandler H) (ctx : Ctx) → Wraps n h ctx
  unfolding dataver device_type_list server_list client_list parts_list tag_list
  changed_times-Wraps n h ctx =
      let e = changed_times-inner n h in
      record {
        dataver = rw e refl;
        device_types = λ b. rw e refl;
        servers = λ b. rw e refl;
        clients = λ b. rw e refl;
        parts = λ b. rw e refl;
        tags = λ b r. rw e refl;
      }
