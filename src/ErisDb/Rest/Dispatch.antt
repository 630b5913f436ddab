-- ===== src/ErisDb/Rest/Dispatch.antt =====
-- What the routes of erisdb/restServer.go answer.
use eris_db.Base.{
  ℕ, ◌≡◌, refl, ◌⊎◌, none, some, List, [], ◌∷◌, Bytes, bytes_eq, str, Result, ok, err, panic,
}
use eris_db.ErisDb.Params.{NodeTypes}
use eris_db.ErisDb.Methods.{Pipe}
use eris_db.ErisDb.JsonService.{EventSubs}
use eris_db.ErisDb.PathParams.{bad_request}
use eris_db.ErisDb.Rest.{RestCodec, Response, must_get}
use eris_db.ErisDb.Rest.Handlers.{handle_event_poll, handle_event_unsubscribe}
use eris_db.ErisDb.Rest.Routes.{
  Verb, bad_content_type, RawParams, Route, new_context, continue_with, handle, serve, find_route,
  serve_found, dispatch, routes,
}
use eris_db.ErisDb.Rest.Statuses.{Is200}

module _ {T : NodeTypes} {S : Type 0} where
  -- The route is for the verb and the pattern.
  abbrev pub IsFor : Verb → Bytes → Route T S → Type 0
  IsFor verb pattern r = (r.verb ≡ verb) × (r.pattern ≡ pattern)

  -- The request is answered with the status, and the state is as before.
  abbrev pub Refused : ℕ → S → Result (Response T) × S → Type 0
  Refused status s (ok r, s2) = (r.status ≡ status) × (s2 ≡ s)
  Refused status s (err e, s2) = ⊥
  Refused status s (panic, s2) = ⊥

  -- What the route's middleware leaves decides: the refusal, or the handler's answer.
  abbrev pub Served : Route T S → RawParams → Bytes → S → Result (Response T) × S → Type 0
  Served r raw body s x =
      let c = continue_with raw r.middleware none new_context in
      ((c.aborted ≡ some bad_request) × Refused 400 s x)
      ⊎ ((c.aborted ≡ none) × (x ≡ r.handler c body s) × Is200 x)

  -- The first route for the request serves it, or there is none.
  abbrev pub Routed :
      List (Route T S) → Verb → Bytes → RawParams → Bytes → S → Result (Response T) × S → Type 0
  Routed [] verb pattern raw body s x = Refused 404 s x
  Routed (r ∷ rs) verb pattern raw body s x =
      (IsFor verb pattern r × Served r raw body s x)
      ⊎ ((IsFor verb pattern r → ⊥) × Routed rs verb pattern raw body s x)

module _ {T : NodeTypes} {S : Type 0} (codec : RestCodec T) (pipe : Pipe T S)
    (event_subs : EventSubs T S) where
  -- Polling a subscription and ending it over REST panic on every request, before anything is
  -- called: their routes have no middleware that sets the id.
  pub dispatch-panic :
      (content_type : Bytes) (raw : RawParams) (body : Bytes) (s : S)
      → let all = routes codec pipe event_subs in
        (dispatch all Verb.get content_type (str "/event_subs/:id") raw body s ≡ (panic, s))
        × (dispatch all Verb.delete content_type (str "/event_subs/:id") raw body s ≡ (panic, s))
  unfolding dispatch bad_content_type find_route serve_found serve handle routes handle_event_poll
      handle_event_unsubscribe must_get bytes_eq
  dispatch-panic content_type raw body s = (refl, refl)
