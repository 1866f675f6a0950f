-- ===== src/Senml/Reference.antt =====
-- `parse_pack` against a description without loop variables: the base time is that of the last
-- element that has one, a record's unit is its own or the last base unit up to it.
use pv_matter.Common.{
  ℕ, ◌≡◌, refl, ◌↔◌, List, [], ◌∷◌, ◌++◌, Option, none, some, ok, err, or_else, map_opt, is_some,
  if◌then◌else◌, ◌||◌, arith, append_assoc, append-nil, Option-cases, inl, inr,
}
use pv_matter.Int.{ℤ}
use pv_matter.Text.{Text}
use pv_matter.Serde.{SerdeJson, RawRecord}
use pv_matter.Senml.{
  Value, Record, Pack, json, missing_header, Scan, seconds, base_fields, value_of, make_record,
  add_value, add_record, scan_record, scan_records, finish, parse_decoded, parse_pack,
}

module _ (serde : SerdeJson) where
  open serde use {Number, Error, records_from_slice}

  -- The base time and the base unit in force behind some elements: the last ones given.
  abbrev pub last_base_time : List (RawRecord Number) → Option ℤ
  last_base_time [] = none
  last_base_time (rec ∷ raw) = or_else (last_base_time raw) (map_opt (seconds serde) rec.bt)

  abbrev pub last_base_unit : List (RawRecord Number) → Option Text
  last_base_unit [] = none
  last_base_unit (rec ∷ raw) = or_else (last_base_unit raw) rec.bu

  -- What an element contributes: a record if it has a name and a value, else nothing.
  abbrev contribution : RawRecord Number → Option Text → Option Text → Option Value → List Record
  contribution rec base_unit none value = []
  contribution rec base_unit (some name) none = []
  contribution rec base_unit (some name) (some value) =
      make_record serde rec base_unit name value ∷ []

  abbrev pub entry : Option Text → RawRecord Number → List Record
  entry base_unit rec = contribution rec base_unit rec.n (value_of serde rec.v rec.vs)

  -- The records of `raw`, where `seen` are the elements before it.
  abbrev pub resolve : List (RawRecord Number) → List (RawRecord Number) → List Record
  resolve seen [] = []
  resolve seen (rec ∷ raw) =
      entry (last_base_unit (seen ++ rec ∷ [])) rec ++ resolve (seen ++ rec ∷ []) raw

  last_base_time-append :
      (xs ys : List (RawRecord Number))
      → last_base_time (xs ++ ys) ≡ or_else (last_base_time ys) (last_base_time xs)
  last_base_time-append [] ys = ground arith
  last_base_time-append (x ∷ xs) ys = ground (arith, last_base_time-append xs ys)

  last_base_unit-append :
      (xs ys : List (RawRecord Number))
      → last_base_unit (xs ++ ys) ≡ or_else (last_base_unit ys) (last_base_unit xs)
  last_base_unit-append [] ys = ground arith
  last_base_unit-append (x ∷ xs) ys = ground (arith, last_base_unit-append xs ys)

  -- The loop variables after the elements `seen`.
  abbrev scan_of : List (RawRecord Number) → List Record → Scan
  scan_of seen done = record {
    base_time = last_base_time seen;
    base_unit = last_base_unit seen;
    records = done;
  }

  base_fields-scan_of :
      (seen : List (RawRecord Number)) (done : List Record) (rec : RawRecord Number)
      → base_fields serde rec (scan_of seen done) ≡ scan_of (seen ++ rec ∷ []) done
  unfolding base_fields
  base_fields-scan_of seen done rec =
      rw (last_base_time-append seen (rec ∷ []), last_base_unit-append seen (rec ∷ []))
        (go rec.bn rec.bt rec.bu)
    where
      go :
          (bn : Option Text) (bt : Option Number) (bu : Option Text)
          → (if is_some bn || is_some bt || is_some bu
              then record {
                base_time = or_else (map_opt (seconds serde) bt) (last_base_time seen);
                base_unit = or_else bu (last_base_unit seen);
                records = done;
              }
              else scan_of seen done)
            ≡ record {
              base_time = or_else (map_opt (seconds serde) bt) (last_base_time seen);
              base_unit = or_else bu (last_base_unit seen);
              records = done;
            }
      go none none none = refl
      go none none (some u) = refl
      go none (some t) bu = refl
      go (some n) bt bu = refl

  add_record-entry :
      (rec : RawRecord Number) (st : Scan)
      → add_record serde rec st ≡ record st { records = st.records ++ entry st.base_unit rec }
  unfolding add_record
  add_record-entry rec st = go rec.n (value_of serde rec.v rec.vs)
    where
      go :
          (name : Option Text) (value : Option Value)
          → add_value serde rec name value st
            ≡ record st { records = st.records ++ contribution rec st.base_unit name value }
      go none value = rw append-nil
      go (some name) none = rw append-nil
      go (some name) (some value) = refl

  scan_record-scan_of :
      (seen : List (RawRecord Number)) (done : List Record) (rec : RawRecord Number)
      → scan_record serde rec (scan_of seen done)
        ≡ scan_of (seen ++ rec ∷ []) (done ++ entry (last_base_unit (seen ++ rec ∷ [])) rec)
  unfolding scan_record
  scan_record-scan_of seen done rec =
      rw (base_fields-scan_of seen done rec) (add_record-entry rec _)

  scan_records-scan_of :
      (raw seen : List (RawRecord Number)) (done : List Record)
      → scan_records serde raw (scan_of seen done)
        ≡ scan_of (seen ++ raw) (done ++ resolve seen raw)
  unfolding scan_records
  scan_records-scan_of [] seen done = rw (append-nil, append-nil)
  scan_records-scan_of (rec ∷ raw) seen done = rw (
    scan_record-scan_of seen done rec,
    scan_records-scan_of raw (seen ++ rec ∷ []),
    append_assoc,
    append_assoc,
  )

  -- A payload that serde_json refuses as an array of elements is reported with the error of serde_json.
  pub parse_pack_json :
      (payload : List ℕ) {e : Error}
      → records_from_slice payload ≡ err e
      → parse_pack serde payload ≡ err (json e)
  unfolding parse_pack
  parse_pack_json payload h = rw h

  module _ (payload : List ℕ) (raw : List (RawRecord Number))
      (decoded : records_from_slice payload ≡ ok raw) where
    parse_pack_finish :
        parse_pack serde payload ≡ finish serde (last_base_time raw) (resolve [] raw)
    unfolding parse_decoded parse_pack
    parse_pack_finish = rw decoded (rw (scan_records-scan_of raw [] []))

    -- Of a payload that decodes, a pack is returned exactly if an element has a base time; it has the last
    -- base time, also for the records before it, and the
    -- named elements with a value in their order, each with its own unit or the last base unit.
    pub parse_pack-eq-ok_iff :
        (p : Pack)
        → (parse_pack serde payload ≡ ok p)
          ↔ ((last_base_time raw ≡ some p.base_time) × (p.records ≡ resolve [] raw))
    unfolding finish
    parse_pack-eq-ok_iff p = rw parse_pack_finish (elim (Option-cases (last_base_time raw)) [
      | inl missing ↦ rw missing (ground arith)
      | inr (t, found) ↦ rw found (ground arith)
    ])

    -- Of a payload that decodes, the header is reported as missing exactly if no element has a base time.
    pub parse_pack-eq-missing_header_iff :
        (parse_pack serde payload ≡ err missing_header) ↔ (last_base_time raw ≡ none)
    unfolding finish
    parse_pack-eq-missing_header_iff =
        rw parse_pack_finish (elim (Option-cases (last_base_time raw)) [
          | inl missing ↦ rw missing (ground arith)
          | inr (t, found) ↦ rw found (ground arith)
        ])
