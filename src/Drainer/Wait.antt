-- ===== src/Drainer/Wait.antt =====
-- What `waitForDelete` waits for.
use node_reaper.Base.{
  ap, Bool, ◌∙◌, sym, wrapped, bytes_eq, false, [], ℕ, ◌<◌, ◌≡◌, refl, ◌≢◌, ◌⊎◌, inl, inr, true,
  Option, none, some, arith, bytes_eq_iff, Error, Bool-cases, wrap_error, operating_pod,
}
use node_reaper.Base.Int.{pos}
use node_reaper.Config.Duration.{second}
use node_reaper.Drainer.Api.{Pod, ApiErrors, Poll, IsPoll, Ends, goes_on}
use node_reaper.Drainer.{is_other_pod, is_deleted, wait_for_delete, forever}

-- An answer with another pod of the name.
abbrev pub IsOther : Pod → Option Pod → Type 0
IsOther pod p = (q : Pod) × (p ≡ some q) × (q.uid ≢ pod.uid)

-- An answer that keeps the wait going: the pod with its uid, or a request that has timed out and comes with
-- no other pod.
abbrev pub KeepsWaiting : ApiErrors → Pod → Option Pod × Option Error → Type 0
KeepsWaiting api pod (p, e) =
    (api.is_not_found e ≡ false) × ¬ (IsOther pod p) × ((e ≡ none) ⊎ (api.is_timeout e ≡ true))

-- What an answer ends the wait with: nothing where the pod is not found or another one comes, even beside an
-- error, and otherwise the error, unless the request has timed out.
abbrev pub Decides : ApiErrors → Pod → Option Pod × Option Error → Option Error → Type 0
Decides api pod (p, e) r =
    (((api.is_not_found e ≡ true) ⊎ IsOther pod p) × (r ≡ none))
    ⊎ ((x : Error) × (e ≡ some x)
        × (api.is_not_found e ≡ false)
        × ¬ (IsOther pod p)
        × (api.is_timeout e ≡ false)
        × (r ≡ some (wrapped operating_pod x)))

is_other_pod-true : (pod : Pod) (p : Option Pod) → IsOther pod p → is_other_pod pod p ≡ true
is_other_pod-true pod none (q, found, differs) = cc
is_other_pod-true pod (some q') (q, found, differs) = ground (arith, bytes_eq_iff q'.uid pod.uid)

is_other_pod-false : (pod : Pod) (p : Option Pod) → ¬ (IsOther pod p) → is_other_pod pod p ≡ false
is_other_pod-false pod none h = refl
is_other_pod-false pod (some q) h = elim (Bool-cases (bytes_eq q.uid pod.uid)) [
  | inl same ↦ ground arith
  | inr differs ↦
      absurd (h (q, refl, λ e. absurd (ground (arith, (bytes_eq_iff q.uid pod.uid).1 e))))
]

is_deleted-KeepsWaiting :
    (api : ApiErrors) (pod : Pod) (answer : Option Pod × Option Error)
    → KeepsWaiting api pod answer
    → is_deleted api pod answer ≡ goes_on
unfolding is_deleted
is_deleted-KeepsWaiting api pod (p, none) (found, same, either) =
    ground (arith, is_other_pod-false pod p same)
is_deleted-KeepsWaiting api pod (p, some x) (found, same, inl e) = cc
is_deleted-KeepsWaiting api pod (p, some x) (found, same, inr late) =
    ground (arith, is_other_pod-false pod p same)

is_deleted-Decides :
    (api : ApiErrors) (pod : Pod) (answer : Option Pod × Option Error) (r : Option Error)
    → Decides api pod answer r
    → (b : Bool × Option Error) × (is_deleted api pod answer ≡ b)
      × Ends b
      × (r ≡ wrap_error operating_pod b.1)
unfolding is_deleted
is_deleted-Decides api pod (p, e) r (inl (inl gone, nothing)) =
    ((true, none), ground arith, tt, nothing)
is_deleted-Decides api pod (p, e) r (inl (inr other, nothing)) =
    ((true, none), ground (arith, is_other_pod-true pod p other), tt, nothing)
is_deleted-Decides api pod (p, e) r (inr (x, failed, found, same, late, error)) =
    ((false, some x), ground (arith, is_other_pod-false pod p same), tt, error)

-- `waitForDelete` returns what the first answer says that does not keep it waiting, if there is time for that
-- round: no error where the pod is not found or another one comes, also beside an error, and otherwise the
-- error with its place, unless the request has timed out.
pub wait_for_delete_lem :
    (api : ApiErrors) (poll : Poll) (polls : IsPoll poll) (pod : Pod)
    (answers : ℕ → Option Pod × Option Error) (n : ℕ) (r : Option Error)
    → n < polls.rounds_in (pos second) forever
    → ((m : ℕ) → m < n → KeepsWaiting api pod (answers m))
    → Decides api pod (answers n) r
    → wait_for_delete api poll pod answers ≡ some r
unfolding wait_for_delete
wait_for_delete_lem api poll polls pod answers n r small earlier decides =
    let (b, answered, ends, result) = is_deleted-Decides api pod (answers n) r decides in
    let polled : poll (pos second) forever (λ m. is_deleted api pod (answers m)) ≡ some b.1 =
      polls.ends (pos second) forever (λ m. is_deleted api pod (answers m)) n b small
        (λ m below. is_deleted-KeepsWaiting api pod (answers m) (earlier m below)) answered ends in
    rw (wait_for_delete, polled) (ap some (sym result))

-- The `Get` of client-go, which `newGetPodFn` returns as it is: a pod beside every error, with an empty uid.
abbrev pub IsGet : (ℕ → Option Pod × Option Error) → Type 0
IsGet answers =
    (n : ℕ) (x : Error)
    → (answers n).1 ≡ some x
    → (q : Pod) × ((answers n).0 ≡ some q) × (q.uid ≡ [])

-- Where a failed request comes with an empty pod, as from client-go, the wait for a pod that has a uid ends
-- without an error at the first request that fails, whatever the error is: a refused connection counts as
-- the end of the pod.
pub wait_for_delete-any_error :
    (api : ApiErrors) (poll : Poll) (polls : IsPoll poll) (pod : Pod)
    (answers : ℕ → Option Pod × Option Error) (n : ℕ) (x : Error)
    → IsGet answers
    → pod.uid ≢ []
    → n < polls.rounds_in (pos second) forever
    → ((m : ℕ) → m < n → KeepsWaiting api pod (answers m))
    → (answers n).1 ≡ some x
    → wait_for_delete api poll pod answers ≡ some none
wait_for_delete-any_error api poll polls pod answers n x get identified small earlier failed =
    let (q, there, empty) = get n x failed in
    wait_for_delete_lem api poll polls pod answers n none small earlier
      (inl (inr (q, there, λ same. identified (sym same ∙ empty)), refl))
