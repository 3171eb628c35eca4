-- ===== src/Autocreate/Called.antt =====
-- When one turn of `processDue` (internal/autocreate/manager.go) calls the creator.
use icloud_api_mangobubu.Base.{
  ℕ, ◌≡◌, refl, Bool, true, false, Option, none, some, List, inl, inr, Result, ok, err,
}
use icloud_api_mangobubu.Store.Creation.{AliasCreationSchedule, Tables, Error, next_or_zero, claim}
use icloud_api_mangobubu.Autocreate.Manager.{
  Decision, skip, unplanned, postponed, claimed, decide, start, Turn, Calls, go_on, after_claim,
  act,
}
use icloud_api_mangobubu.Autocreate.Courses.{CallsOnce}

go_on-CallsOnce :
    (calls : Calls) (u : Turn) (s : AliasCreationSchedule) (planned : List ℕ) (t v : Tables)
    (r : Result Error (Tables × Option (List ℕ)))
    → decide u.grace s u.now u.random ≡ claimed planned
    → claim s.account_id (next_or_zero s) planned u.now t ≡ ok (v, true)
    → start s.account_id planned u.now u.actual v ≡ r
    → CallsOnce calls u s t (go_on calls u s.account_id v r)
go_on-CallsOnce calls u s planned t v (err e) decided took went =
    inr (refl, λ (w, corrected, (p, x, d, c, b)). cc)
go_on-CallsOnce calls u s planned t v (ok (w, none)) decided took went =
    inr (refl, λ (x, corrected, (p, y, d, c, b)). cc)
go_on-CallsOnce calls u s planned t v (ok (w, some corrected)) decided took went =
    inl (w, corrected, (planned, v, decided, took, went), refl, refl)

after_claim-CallsOnce :
    (calls : Calls) (u : Turn) (s : AliasCreationSchedule) (planned : List ℕ) (t : Tables)
    (r : Result Error (Tables × Bool))
    → decide u.grace s u.now u.random ≡ claimed planned
    → claim s.account_id (next_or_zero s) planned u.now t ≡ r
    → CallsOnce calls u s t (after_claim calls u s.account_id planned t r)
after_claim-CallsOnce calls u s planned t (err e) decided took =
    inr (refl, λ (w, corrected, (p, x, d, c, b)). cc)
after_claim-CallsOnce calls u s planned t (ok (v, false)) decided took =
    inr (refl, λ (w, corrected, (p, x, d, c, b)). cc)
after_claim-CallsOnce calls u s planned t (ok (v, true)) decided took =
    go_on-CallsOnce calls u s planned t v _ decided took refl

pub act-CallsOnce :
    (calls : Calls) (u : Turn) (s : AliasCreationSchedule) (t : Tables) (d : Decision)
    → decide u.grace s u.now u.random ≡ d
    → CallsOnce calls u s t (act calls u s.account_id (next_or_zero s) t d)
act-CallsOnce calls u s t skip decided = inr (refl, λ (w, corrected, (p, x, d, c, b)). cc)
act-CallsOnce calls u s t unplanned decided = inr (refl, λ (w, corrected, (p, x, d, c, b)). cc)
act-CallsOnce calls u s t (postponed planned) decided =
    inr (refl, λ (w, corrected, (p, x, d, c, b)). cc)
act-CallsOnce calls u s t (claimed planned) decided =
    after_claim-CallsOnce calls u s planned t _ decided refl
