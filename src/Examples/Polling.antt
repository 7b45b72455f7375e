-- ===== src/Examples/Polling.antt =====
-- A polling function that keeps what is documented of `wait.PollImmediate`.
use node_reaper.Base.{
  ℕ, zero, suc, ◌+◌, ◌<◌, ◌≡◌, refl, true, false, Bool, Option, none, some, [], ap, arith, failure,
  operating_pod, subst, Error,
}
use node_reaper.Base.Int.{ℤ, pos, negsuc}
use node_reaper.Drainer.Api.{Poll, IsPoll, Ends, goes_on}

-- A poll that asks once for each unit of the timeout, and once more.
abbrev pub Rounds : Type 0
Rounds = ℕ → Bool × Option Error

-- What a round ends the poll with, if it ends it.
abbrev pub round_ends : Bool × Option Error → Option (Option Error)
round_ends (true, none) = some none
round_ends (b, some e) = some (some e)
round_ends (false, none) = none

abbrev scan : ℕ → ℕ → Rounds → Option Error
scan zero m rounds = some (failure operating_pod [])
scan (suc fuel) m rounds = elim (round_ends (rounds m)) [
  | some r ↦ r
  | none ↦ scan fuel (suc m) rounds
]

abbrev enough : ℤ → ℕ
enough (pos n) = suc n
enough (negsuc n) = 1

abbrev pub poll_each : Poll
poll_each interval timeout rounds = some (scan (enough timeout) 0 rounds)

shift : (m k : ℕ) → m + suc k ≡ suc m + k
shift m k = omega arith

-- A round that ends the poll.
pub scan-Ends :
    (fuel m n : ℕ) (rounds : Rounds) (r : Bool × Option Error)
    → n < fuel
    → ((k : ℕ) → k < n → rounds (m + k) ≡ goes_on)
    → rounds (m + n) ≡ r
    → Ends r
    → scan fuel m rounds ≡ r.1
scan-Ends zero m n rounds r small earlier found ends = absurd (omega arith)
scan-Ends (suc fuel) m zero rounds r small earlier found ends =
    let here : rounds m ≡ r = subst (λ k. rounds k ≡ r) (omega arith) found in
    rw (ap round_ends here, scan) (ended r ends)
  where
    ended :
        (r : Bool × Option Error)
        → Ends r
        → elim (round_ends r) [ some x ↦ x | none ↦ scan fuel (suc m) rounds ] ≡ r.1
    ended (true, none) h = refl
    ended (false, none) h = absurd h
    ended (b, some e) h = ground arith
scan-Ends (suc fuel) m (suc n) rounds r small earlier found ends =
    let here : rounds m ≡ goes_on =
      subst (λ k. rounds k ≡ goes_on) (omega arith) (earlier 0 (omega arith)) in
    let later =
      scan-Ends fuel (suc m) n rounds r (omega arith)
        (λ k below. subst (λ j. rounds j ≡ goes_on) (shift m k) (earlier (suc k) (omega arith)))
        (subst (λ j. rounds j ≡ r) (shift m n) found) ends in
    rw (ap round_ends here, scan) later

abbrev pub poll_each-IsPoll : IsPoll poll_each
poll_each-IsPoll = record {
  rounds_in = λ interval timeout. enough timeout;
  immediate = λ interval timeout. at_once timeout;
  ends = λ interval timeout rounds n r small earlier found ends. ap some (
      scan-Ends (enough timeout) 0 n rounds r small
        (λ k below. subst (λ j. rounds j ≡ goes_on) (nothing k) (earlier k below))
        (subst (λ j. rounds j ≡ r) (nothing n) found) ends);
}
  where
    nothing : (k : ℕ) → k ≡ 0 + k
    nothing k = omega arith

    at_once : (t : ℤ) → 0 < enough t
    at_once (pos n) = omega arith
    at_once (negsuc n) = omega arith
