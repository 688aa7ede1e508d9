-- ===== src/Zcl/Attributes/Layout.antt =====
-- internal/zcl/encode.go and zcl.go: `Attributes` reads what `ReadAttributesResponse` wrote.
use gzb.Base.{
  ℕ, zero, suc, ◌-◌, ◌≤◌, ◌<◌, ◌≡◌, ◌^◌, refl, sym, ap, ◌∙◌, subst, arith, true, false, none, some,
  List, [], ◌∷◌, ◌++◌, ◌==◌, Bool-cases, inl, inr, Bytes, IsWord, All, length, length-append, le16,
  take, drop, drop-append, take-append,
}
use gzb.Base.Result.{Result, ok, err, bind-eq-ok}
use gzb.Cursor.{Cursor, remaining}
use gzb.Cursor.At.{at, at-nil, u8-at, u16-le16, remaining-at}
use gzb.Zcl.Attributes.{Decoded, refused, with_value, read_record, read_records, listed, attributes}
use gzb.Zcl.Frame.{
  Frame, Attribute, FrameError, about, response_record, response_records, read_attributes_response,
  read_attributes_rsp, decode,
}
use gzb.Zcl.Frame.Layout.{decode_plain, plain_frame}
use gzb.Zcl.Value.{Floats, Value, EncodeError, encode_value, encoding_of}
use gzb.Zcl.Value.RoundTrip.{widened, decode_value-widened}

about-ok : {A : Type 0} (id : ℕ) (r : Result EncodeError A) (a : A) → about id r ≡ ok a → r ≡ ok a
about-ok id (ok x) a e = ap (λ _. ok x) e ∙ cc
about-ok id (err x) a e = cc

module _ {F : Type 0} (fl : Floats F) (bits : (f : F) → fl.to_bits f < 2 ^ 32) where
  -- A record as it is received: without type and value if its status is an error.
  abbrev pub IsReceived : Attribute F → Decoded F → Type 0
  IsReceived r d =
      (d.id ≡ r.id)
      × (d.status ≡ r.status)
      × (r.status ≡ 0
          → (d.type ≡ r.type)
            × (d.value ≡ widened fl (encoding_of r.type) r.value)
            × (encode_value fl r.type r.value ≡ ok d.raw))

  failed_back :
      (r : Attribute F) (before rest : Bytes)
      → IsWord r.id
      → (r.status == 0) ≡ false
      → read_record fl true (at before (le16 r.id ++ (r.status ∷ rest)))
        ≡ (some (refused r.id r.status), at ((before ++ le16 r.id) ++ r.status ∷ []) rest)
  unfolding read_record
  failed_back r before rest w ne =
      rw (u16-le16 before r.id (r.status ∷ rest) w, u8-at) (simp ne refl)

  taken_raw :
      (before encoded rest : Bytes)
      → take
          (length (before ++ encoded) - length before)
          (drop (length before) (before ++ (encoded ++ rest)))
        ≡ encoded
  taken_raw before encoded rest =
      let width : length (before ++ encoded) - length before ≡ length encoded =
        omega (arith, length-append before encoded) in
      rw (width, drop-append before (encoded ++ rest)) (take-append encoded rest)

  with_value-at :
      (id status type : ℕ) (v : Value F) (before encoded rest : Bytes)
      → with_value fl id status type (at before (encoded ++ rest)) (v, at (before ++ encoded) rest)
        ≡ (
          some (record { id = id; type = type; value = v; status = status; raw = encoded }),
          at (before ++ encoded) rest,
        )
  unfolding at
  with_value-at id status type v before encoded rest = rw (taken_raw before encoded rest) refl

  value_back :
      (r : Attribute F) (encoded before rest : Bytes)
      → IsWord r.id
      → (r.status == 0) ≡ true
      → encode_value fl r.type r.value ≡ ok encoded
      → read_record fl true (at before (le16 r.id ++ (r.status ∷ r.type ∷ (encoded ++ rest)))) ≡ (
        some (record {
          id = r.id;
          type = r.type;
          value = widened fl (encoding_of r.type) r.value;
          status = r.status;
          raw = encoded;
        }),
        at ((((before ++ le16 r.id) ++ r.status ∷ []) ++ r.type ∷ []) ++ encoded) rest,
      )
  unfolding read_record
  value_back r encoded before rest w z e =
      let start : Bytes = ((before ++ le16 r.id) ++ r.status ∷ []) ++ r.type ∷ [] in
      rw (u16-le16 before r.id (r.status ∷ r.type ∷ (encoded ++ rest)) w, u8-at, u8-at)
        (simp z (
          ap (λ t. with_value fl r.id r.status r.type (at start (encoded ++ rest)) t)
            (decode_value-widened fl bits r.type r.value encoded start rest e)
          ∙ with_value-at r.id r.status r.type _ start encoded rest))

  -- What a record is read as, and where the reading stands.
  abbrev Back : Attribute F → Bytes → Bytes → Bytes → Type 0
  Back r bs before rest =
      (d : Decoded F) × (b : Bytes) × (read_record fl true (at before (bs ++ rest))
        ≡ (some d, at b rest))
      × IsReceived r d
      × (0 < length bs)

  response_record-ok :
      (r : Attribute F) (bs : Bytes)
      → (r.status == 0) ≡ true
      → response_record fl r ≡ ok bs
      → (encoded : Bytes) × (encode_value fl r.type r.value ≡ ok encoded)
        × (le16 r.id ++ (r.status ∷ r.type ∷ encoded) ≡ bs)
  unfolding response_record
  response_record-ok r bs z h =
      let (encoded, e, is) =
        bind-eq-ok (about r.id (encode_value fl r.type r.value))
          (λ encoded. ok ((le16 r.id ++ r.status ∷ []) ++ (r.type ∷ encoded))) (simp z at h) in
      (encoded, about-ok r.id _ _ e, cc)

  response_record-Back :
      (r : Attribute F) (bs before rest : Bytes)
      → IsWord r.id
      → response_record fl r ≡ ok bs
      → Back r bs before rest
  unfolding response_record
  response_record-Back r bs before rest w h = elim (Bool-cases (r.status == 0)) [
    | inr ne ↦
        let short : ◌≡◌ {A = Result FrameError Bytes} (ok (le16 r.id ++ r.status ∷ [])) (ok bs) =
          simp ne at h in
        let is : le16 r.id ++ r.status ∷ [] ≡ bs = cc in
        subst (λ t. Back r t before rest) is
          (
            refused r.id r.status,
            _,
            failed_back r before rest w ne,
            (refl, refl, λ z. absurd (zero_status r.status ne z)),
            omega arith,
          )
    | inl z ↦
        let (encoded, e, is) = response_record-ok r bs z h in
        let found : Back r (le16 r.id ++ (r.status ∷ r.type ∷ encoded)) before rest = (
          _,
          _,
          value_back r encoded before rest w z e,
          (refl, refl, λ _. (refl, refl, e)),
          omega arith,
        ) in
        subst (λ t. Back r t before rest) is found
  ]
    where
      zero_status : (s : ℕ) → (s == 0) ≡ false → s ≡ 0 → ⊥
      zero_status s ne e = ground arith

  -- The records one by one.
  pub data AreReceived : List (Attribute F) → List (Decoded F) → Type 0 where
    all_read : AreReceived [] []
    one_read :
        {r : Attribute F} {d : Decoded F} {rs : List (Attribute F)} {ds : List (Decoded F)}
        → IsReceived r d
        → AreReceived rs ds
        → AreReceived (r ∷ rs) (d ∷ ds)

  read_records-done :
      (fuel : ℕ) (before : Bytes) → read_records fl fuel true (at before []) ≡ ([], at before [])
  unfolding read_records
  read_records-done zero before = refl
  read_records-done (suc fuel) before =
      let done : (remaining (at before []) == 0) ≡ true = ground (arith, remaining-at before []) in
      simp done refl

  read_records-step :
      (fuel : ℕ) (bs more before b : Bytes) (d : Decoded F)
      → 0 < length bs
      → read_record fl true (at before (bs ++ more)) ≡ (some d, at b more)
      → read_records fl (suc fuel) true (at before (bs ++ more))
        ≡ (d ∷ (read_records fl fuel true (at b more)).0, (read_records fl fuel true (at b more)).1)
  unfolding read_records
  read_records-step fuel bs more before b d long e =
      let left : (remaining (at before (bs ++ more)) == 0) ≡ false =
        ground (arith, remaining-at before (bs ++ more), length-append bs more) in
      simp left (ap (λ t. listed fl t.0 (read_records fl fuel true t.1) t.1) e)

  responses_back :
      (fuel : ℕ) (rs : List (Attribute F)) (bs before : Bytes)
      → All (λ r. IsWord r.id) rs
      → response_records fl rs ≡ ok bs
      → length bs ≤ fuel
      → (ds : List (Decoded F)) × (b : Bytes) × (read_records fl fuel true (at before bs)
          ≡ (ds, at b []))
        × AreReceived rs ds
  unfolding response_records
  responses_back fuel [] bs before ws h short =
      let none_written : [] ≡ bs = cc in
      subst
        (λ t.
          (ds : List (Decoded F)) × (b : Bytes) × (read_records fl fuel true (at before t)
            ≡ (ds, at b []))
          × AreReceived [] ds)
        none_written ([], before, read_records-done fuel before, all_read)
  responses_back zero (r ∷ rs) bs before (w, ws) h short =
      let (first, e1, h1) = bind-eq-ok (response_record fl r) _ h in
      let (more, e2, h2) = bind-eq-ok (response_records fl rs) (λ m. ok (first ++ m)) h1 in
      let is : first ++ more ≡ bs = cc in
      let (d, b, read, good, long) = response_record-Back r first before more w e1 in
      absurd (impossible (omega (arith, ap length is, length-append first more)))
    where
      impossible : 0 < 0 → ⊥
      impossible h = omega arith
  responses_back (suc fuel) (r ∷ rs) bs before (w, ws) h short =
      let (first, e1, h1) = bind-eq-ok (response_record fl r) _ h in
      let (more, e2, h2) = bind-eq-ok (response_records fl rs) (λ m. ok (first ++ m)) h1 in
      let is : first ++ more ≡ bs = cc in
      let (d, b, read, good, long) = response_record-Back r first before more w e1 in
      let (ds, b', loop, rest_good) =
        responses_back fuel rs more b ws e2
          (omega (arith, ap length is, length-append first more)) in
      (
        d ∷ ds,
        b',
        subst (λ t. read_records fl (suc fuel) true (at before t) ≡ (d ∷ ds, at b' [])) is
            (read_records-step fuel first more before b d long read
              ∙ ap (λ (t : List (Decoded F) × Cursor). (d ∷ t.0, t.1)) loop),
        one_read good rest_good,
      )

  -- What `ReadAttributesResponse` writes decodes, and `Attributes` reads the records back from it
  -- without an error.
  pub attributes-read_attributes_response :
      (seq : ℕ) (rs : List (Attribute F)) (b : Bytes)
      → All (λ r. IsWord r.id) rs
      → read_attributes_response fl seq rs ≡ ok b
      → (ds : List (Decoded F)) × (f : Frame) × (decode b ≡ ok f)
        × (attributes fl f ≡ (ds, none))
        × AreReceived rs ds
  unfolding read_attributes_response attributes at
  attributes-read_attributes_response seq rs b ws h =
      let (bs, e, is) =
        bind-eq-ok (response_records fl rs) (λ t. ok (0x18 ∷ seq ∷ read_attributes_rsp ∷ t)) h in
      let (ds, end, loop, good) = responses_back (length bs) rs bs [] ws e (omega arith) in
      let written : 0x18 ∷ seq ∷ read_attributes_rsp ∷ bs ≡ b = cc in
      (
        ds,
        plain_frame 0x18 seq read_attributes_rsp bs,
        ap decode (sym written) ∙ decode_plain 0x18 seq read_attributes_rsp bs refl,
        rw (at-nil bs, loop) refl,
        good,
      )
