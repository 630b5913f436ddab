-- ===== src/ErisDb/Rest/Refusals.antt =====
-- The middleware of erisdb/restServer.go refuses with the status 400.
use eris_db.Base.{
  ℕ, ◌≡◌, refl, ◌⊎◌, inl, inr, not, Option, none, some, List, [], ◌∷◌, bytes_eq, str, Result-cases,
  if◌then◌else◌, if_rule,
}
use eris_db.Base.Int.{pos, ltb_ℤ}
use eris_db.Go.Strconv.{parse_int}
use eris_db.Go.Hex.{decode}
use eris_db.Util.{is_address}
use eris_db.ErisDb.Query.{parse_search_query}
use eris_db.ErisDb.PathParams.{
  Context, bad_request, is_err, value_or, address_param, name_param, key_param, height_param,
  peer_address_param, parse_tx_modifier, search_query_param,
}
use eris_db.ErisDb.Rest.Routes.{Middleware, RawParams, apply, continue_with}

-- Nothing is aborted, or it is with 400.
abbrev pub Aborts400 : Context → Type 0
Aborts400 c = (c.aborted ≡ none) ⊎ (c.aborted ≡ some bad_request)

apply-Aborts400 :
    (raw : RawParams) (mw : Middleware) (c : Context) → Aborts400 c → Aborts400 (apply raw mw c)
unfolding address_param name_param key_param height_param peer_address_param parse_tx_modifier
    search_query_param
apply-Aborts400 raw Middleware.address_mw c h =
    if_rule Aborts400 (not (is_address raw.address)) (record c { aborted = some bad_request }) c
      (λ _. inr refl) (λ _. h)
apply-Aborts400 raw Middleware.name_mw c h = h
apply-Aborts400 raw Middleware.key_mw c h =
    if_rule Aborts400 (is_err (decode raw.key)) (record c { aborted = some bad_request }) c
      (λ _. inr refl) (λ _. h)
apply-Aborts400 raw Middleware.height_mw c h =
    let r = parse_int raw.height in
    let c1 = if is_err r then record c { aborted = some bad_request } else c in
    if_rule Aborts400 (ltb_ℤ (value_or raw.height_left r) (pos 0))
      (record c1 { aborted = some bad_request }) c1 (λ _. inr refl)
      (λ _.
        if_rule Aborts400 (is_err r) (record c { aborted = some bad_request }) c (λ _. inr refl)
          (λ _. h))
apply-Aborts400 raw Middleware.peer_address_mw c h = h
apply-Aborts400 raw Middleware.tx_modifier_mw c h =
    if_rule Aborts400 (bytes_eq raw.hold (str "true")) _ _ (λ _. h)
      (λ _.
        if_rule Aborts400 (bytes_eq raw.hold []) _ _ (λ _. h)
          (λ _. if_rule Aborts400 (bytes_eq raw.hold (str "false")) _ _ (λ _. h) (λ _. inr refl)))
apply-Aborts400 raw Middleware.search_query_mw c h =
    if_rule Aborts400 (bytes_eq raw.q []) c _ (λ _. h)
      (λ _. elim (Result-cases (parse_search_query raw.q)) [
        | inl (fds, e) ↦ rw e h
        | inr (inl (x, e)) ↦ rw e (inr refl)
        | inr (inr e) ↦ rw e (inr refl)
      ])

pub continue_with-Aborts400 :
    (raw : RawParams) (mws : List Middleware) (o : Option ℕ) (c : Context)
    → Aborts400 c
    → Aborts400 (continue_with raw mws o c)
continue_with-Aborts400 raw [] o c h = h
continue_with-Aborts400 raw (mw ∷ mws) (some code) c h = h
continue_with-Aborts400 raw (mw ∷ mws) none c h =
    let c2 = apply raw mw c in
    continue_with-Aborts400 raw mws c2.aborted c2 (apply-Aborts400 raw mw c h)
