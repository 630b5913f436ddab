-- ===== src/Pipe/Filters/Factory.antt =====
-- What `FilterFactory.NewFilter` makes of a list of conditions.
use eris_db.Base.{
  some, none, Bool, ◌≡◌, refl, List, [], ◌∷◌, ◌++◌, append_assoc, append-nil, map, ok, err, Error,
  arith, all_pass, All, ◌∙◌, ap,
}
use eris_db.Go.Strings.{to_lower}
use eris_db.Pipe.Values.{Value}
use eris_db.Pipe.Filters.{
  find_pool, FilterData, Filter, ConfigurableFilter, FilterFactory, new_single_filter, new_filters,
  new_filter, match_each, composite_match, match_all,
}

module _ {F : Type 0} (cf : ConfigurableFilter F) (ff : FilterFactory F) (fd : FilterData) where
  pub new_single_filter-some :
      (f : F)
      → find_pool (to_lower fd.field) ff.filter_pools ≡ some f
      → new_single_filter cf ff fd ≡ cf.configure f fd
  unfolding new_single_filter
  new_single_filter-some f e = rw (e, new_single_filter)

  pub new_single_filter-none :
      find_pool (to_lower fd.field) ff.filter_pools ≡ none
      → new_single_filter cf ff fd ≡ err (Error.field_not_supported fd.field)
  unfolding new_single_filter
  new_single_filter-none e = rw (e, new_single_filter)

-- Conditions `C` that are printed as filter data, each with the test that its filter should make.
module _ {F C : Type 0} (cf : ConfigurableFilter F) (ff : FilterFactory F) (print : C → FilterData)
    (test : C → Value → Bool) (Good : C → Type 0)
    (configured : (c : C)
      → Good c
      → (f : F) × (new_single_filter cf ff (print c) ≡ ok f)
        × ((v : Value) → cf.matches f v ≡ ok (test c v))) where
  abbrev Tests : List C → List Filter → Type 0
  Tests cs gs = (v : Value) → match_each gs v ≡ ok (all_pass (λ c. test c v) cs)

  Tests-cons :
      (c : C) (cs : List C) (g : Filter) (gs : List Filter)
      → ((v : Value) → g v ≡ ok (test c v))
      → Tests cs gs
      → Tests (c ∷ cs) (g ∷ gs)
  unfolding match_each
  Tests-cons c cs g gs h hs v = rw (h v) (ground (arith, hs v))

  new_filters-Tests :
      (cs : List C) (fs : List Filter)
      → All Good cs
      → (gs : List Filter) × (new_filters cf ff (map print cs) fs ≡ ok (fs ++ gs)) × Tests cs gs
  unfolding new_filters
  new_filters-Tests [] fs h = ([], rw append-nil, unfold match_each in λ v. refl)
  new_filters-Tests (c ∷ cs) fs h =
      let (f, made, fits) = configured c h.0 in
      let (gs, rest, tests) = new_filters-Tests cs (fs ++ cf.matches f ∷ []) h.1 in
      (
        cf.matches f ∷ gs,
        rw made (rest ∙ ap ok (append_assoc fs (cf.matches f ∷ []) gs)),
        Tests-cons c cs (cf.matches f) gs fits tests,
      )

  -- The filter that is made of a list of good conditions passes a value just when all their tests do.
  pub new_filter-all_pass :
      (cs : List C)
      → All Good cs
      → (g : Filter) × (new_filter cf ff (map print cs) ≡ ok g)
        × ((v : Value) → g v ≡ ok (all_pass (λ c. test c v) cs))
  unfolding new_filter match_all composite_match
  new_filter-all_pass [] h = (match_all, refl, λ v. refl)
  new_filter-all_pass (c ∷ []) h =
      let (f, made, fits) = configured c h.0 in
      (cf.matches f, rw made, λ v. rw (fits v) (ground arith))
  new_filter-all_pass (c ∷ d ∷ cs) h =
      let (gs, made, tests) = new_filters-Tests (c ∷ d ∷ cs) [] h in
      (composite_match (record { filters = gs }), rw made, tests)

  new_filters_error :
      (cs : List C) (fd : FilterData) (fds : List FilterData) (fs : List Filter) {e : Error}
      → All Good cs
      → new_single_filter cf ff fd ≡ err e
      → new_filters cf ff (map print cs ++ fd ∷ fds) fs ≡ err e
  unfolding new_filters
  new_filters_error [] fd fds fs h bad = rw bad
  new_filters_error (c ∷ cs) fd fds fs h bad =
      let (f, made, fits) = configured c h.0 in
      rw made (new_filters_error cs fd fds (fs ++ cf.matches f ∷ []) h.1 bad)

  -- The first filter data that cannot be made a filter decides the error.
  pub new_filter_error :
      (cs : List C) (fd : FilterData) (fds : List FilterData) {e : Error}
      → All Good cs
      → new_single_filter cf ff fd ≡ err e
      → new_filter cf ff (map print cs ++ fd ∷ fds) ≡ err e
  unfolding new_filter
  new_filter_error [] fd [] h bad = rw bad
  new_filter_error [] fd (gd ∷ fds) h bad = rw (new_filters_error [] fd (gd ∷ fds) [] h bad)
  new_filter_error (c ∷ []) fd fds h bad = rw (new_filters_error (c ∷ []) fd fds [] h bad)
  new_filter_error (c ∷ d ∷ cs) fd fds h bad = rw (new_filters_error (c ∷ d ∷ cs) fd fds [] h bad)
