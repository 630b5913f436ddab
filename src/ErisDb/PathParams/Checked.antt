-- ===== src/ErisDb/PathParams/Checked.antt =====
-- What a handler of erisdb/restServer.go may rely on once the middleware has run.
use mathlib.Core.Bool.{false≢true}
use eris_db.Base.{
  subst, ltb→lt, ◌≡◌, refl, ◌∙◌, ap, sym, ◌⊎◌, inl, inr, Bytes, Bool, true, false, not, ◌&&◌, ◌||◌,
  none, some, Result, ok, err, panic, ◌==◌, length, Bool-cases, arith,
}
use eris_db.Base.Int.{ℤ, pos, ltb_ℤ, ◌≤ℤ◌, ◌<ℤ◌}
use eris_db.Go.Strconv.{parse_int}
use eris_db.Go.Hex.{decode}
use eris_db.Util.{is_address, is_hex, has_digits}
use eris_db.Util.Decoding.{Decodes, has_digits-Decodes}
use eris_db.ErisDb.PathParams.{
  Context, bad_request, abort_if, is_err, value_or, address_param, height_param, sub_id_param,
}

-- After `addressParam` the handler runs just if the text of the address is that of 20 bytes, and
-- then it gets these bytes; else the request ends with the status 400. No middleware has aborted
-- it before.
pub address_param-Decodes :
    (fallback addr : Bytes) (c : Context)
    → c.aborted ≡ none
    → (((address_param fallback addr c).aborted ≡ none)
        × (bts : Bytes) × (decode addr ≡ ok bts)
        × (length bts ≡ 20)
        × ((address_param fallback addr c).addr_bts ≡ some bts))
      ⊎ (((address_param fallback addr c).aborted ≡ some bad_request) × ¬ Decodes 20 addr)
unfolding is_address address_param
address_param-Decodes fallback addr c runs = elim (Bool-cases (has_digits 40 addr)) [
  | inl good ↦
      let (bts, e, l) = (has_digits-Decodes 20 addr).0 good in
      inl (
        ap (λ b. (abort_if (not b) c).aborted) good ∙ runs,
        bts,
        e,
        l,
        ap (λ r. some (value_or fallback r)) e,
      )
  | inr bad ↦ inr (
    ap (λ b. (abort_if (not b) c).aborted) bad,
    λ d. false≢true (sym bad ∙ (has_digits-Decodes 20 addr).1 d),
  )
]

abort_twice :
    (b : Bool) (c : Context)
    → c.aborted ≡ some bad_request
    → (abort_if b c).aborted ≡ some bad_request
abort_twice true c h = refl
abort_twice false c h = h

-- `heightParam` once the text is parsed.
checked_height : ℤ → Result ℤ → Context → Context
checked_height fallback r c =
    let h = value_or fallback r in
    record (abort_if (ltb_ℤ h (pos 0)) (abort_if (is_err r) c)) { height = some h }

abbrev HeightChecked : Result ℤ → Context → Type 0
HeightChecked r c =
    ((c.aborted ≡ none) × (h : ℤ) × (r ≡ ok h) × (pos 0 ≤ℤ h) × (c.height ≡ some h))
    ⊎ ((c.aborted ≡ some bad_request) × ((h : ℤ) → r ≡ ok h → h <ℤ pos 0))

is_low : (z h : ℤ) → ltb_ℤ z (pos 0) ≡ true → ok z ≡ ok h → h <ℤ pos 0
is_low z h e q = let same : z ≡ h = cc in subst (λ x. x <ℤ pos 0) same (ltb→lt _ _ e)

is_high : (z : ℤ) → ltb_ℤ z (pos 0) ≡ false → pos 0 ≤ℤ z
is_high z e = ground (arith, e)

checked_height-HeightChecked :
    (fallback : ℤ) (r : Result ℤ) (c : Context)
    → c.aborted ≡ none
    → HeightChecked r (checked_height fallback r c)
unfolding checked_height
checked_height-HeightChecked fallback (ok z) c runs = elim (Bool-cases (ltb_ℤ z (pos 0))) [
  | inl low ↦ inr (ap (λ b. (abort_if b c).aborted) low, λ h. is_low z h low)
  | inr high ↦ inl (ap (λ b. (abort_if b c).aborted) high ∙ runs, z, refl, is_high z high, refl)
]
checked_height-HeightChecked fallback (err e) c runs = inr (
  abort_twice (ltb_ℤ fallback (pos 0)) (record c { aborted = some bad_request }) refl,
  λ h q. absurd (cc q),
)
checked_height-HeightChecked fallback panic c runs = inr (
  abort_twice (ltb_ℤ fallback (pos 0)) (record c { aborted = some bad_request }) refl,
  λ h q. absurd (cc q),
)

-- After `heightParam` the handler runs just if the text is that of an int that is not negative, and
-- then it gets this number; else the request ends with the status 400. No middleware has aborted
-- it before.
pub height_param-pos :
    (fallback : ℤ) (text : Bytes) (c : Context)
    → c.aborted ≡ none
    → (((height_param fallback text c).aborted ≡ none)
        × (h : ℤ) × (parse_int text ≡ ok h)
        × (pos 0 ≤ℤ h)
        × ((height_param fallback text c).height ≡ some h))
      ⊎ (((height_param fallback text c).aborted ≡ some bad_request)
          × ((h : ℤ) → parse_int text ≡ ok h → h <ℤ pos 0))
unfolding height_param checked_height
height_param-pos fallback text c runs =
    checked_height-HeightChecked fallback (parse_int text) c runs

split_or : (a b : Bool) → not a || not b ≡ not (a && b)
split_or true b = refl
split_or false b = refl

-- After `subIdParam` the handler runs just if the text is that of 32 bytes, and then it gets the text;
-- else the request ends with the status 400. No middleware has aborted it before.
sub_id_param-Decodes :
    (sub_id : Bytes) (c : Context)
    → c.aborted ≡ none
    → (((sub_id_param sub_id c).aborted ≡ none)
        × Decodes 32 sub_id
        × ((sub_id_param sub_id c).id ≡ some sub_id))
      ⊎ (((sub_id_param sub_id c).aborted ≡ some bad_request) × ¬ Decodes 32 sub_id)
unfolding sub_id_param has_digits
sub_id_param-Decodes sub_id c runs =
    let test = split_or (length sub_id == 64) (is_hex sub_id) in
    elim (Bool-cases (has_digits 64 sub_id)) [
      | inl good ↦ inl (
        ap (λ b. (abort_if b c).aborted) test ∙ ap (λ b. (abort_if (not b) c).aborted) good ∙ runs,
        (has_digits-Decodes 32 sub_id).0 good,
        refl,
      )
      | inr bad ↦ inr (
        ap (λ b. (abort_if b c).aborted) test ∙ ap (λ b. (abort_if (not b) c).aborted) bad,
        λ d. false≢true (sym bad ∙ (has_digits-Decodes 32 sub_id).1 d),
      )
    ]
