-- ===== src/Log/Overlap.antt =====
-- Two goroutines that log at once through the buffer of pkg/log/zap.go, as those of `evictOrDeletePods`
-- do: any operation on the buffer of the one may come between two of the other.
use node_reaper.Base.{
  ℕ, zero, suc, ◌≡◌, refl, ap, ◌∙◌, Option, none, some, List, [], ◌∷◌, ◌++◌, Bytes, length,
}
use node_reaper.Log.Buffer.{
  Field, Step, write_string, step, write_fields, prepend_steps, run_steps, prepended,
  run_steps-written, run_steps-prepend_steps,
}

-- A call of `prependString`: what it has still to do, and what it has returned.
pub record Caller : Type 0 where
  pub todo : List Step
  pub text : Option Bytes

pub data Turn : Type 0 where
  first second : Turn

pub record Callers : Type 0 where
  pub buffer : Bytes
  pub one : Caller
  pub other : Caller

-- A call does its next operation, and then returns what is in the buffer.
unfoldable pub advance : Caller → Bytes → Caller × Bytes
advance c buffer = elim c.todo [
  | x ∷ xs ↦ (record c { todo = xs }, step x buffer)
  | [] ↦ elim c.text [ none ↦ (record c { text = some buffer }, buffer) | some t ↦ (c, buffer) ]
]

unfoldable pub turn : Turn → Callers → Callers
unfolding advance
turn first s = let (c, b) = advance s.one s.buffer in record s { one = c; buffer = b }
turn second s = let (c, b) = advance s.other s.buffer in record s { other = c; buffer = b }

abbrev pub turns : List Turn → Callers → Callers
turns [] s = s
turns (t ∷ ts) s = turns ts (turn t s)

abbrev pub times : ℕ → Turn → List Turn
times zero t = []
times (suc n) t = t ∷ times n t

abbrev pub starting : List Step → Caller
starting xs = record { todo = xs; text = none }

-- Both calls are about to begin.
abbrev pub both : List Step → List Step → Bytes → Callers
both xs ys buffer = record { buffer = buffer; one = starting xs; other = starting ys }

pub turns-append : (ts us : List Turn) (s : Callers) → turns (ts ++ us) s ≡ turns us (turns ts s)
turns-append [] us s = refl
turns-append (t ∷ ts) us s = turns-append ts us (turn t s)

-- One call that runs to its end, with the other left where it is.
pub first_alone :
    (xs : List Step) (c : Caller) (buffer : Bytes)
    → turns
        (times (suc (length xs)) first)
        (record { buffer = buffer; one = starting xs; other = c })
      ≡ record {
        buffer = run_steps xs buffer;
        one = record { todo = []; text = some (run_steps xs buffer) };
        other = c;
      }
unfolding turn
first_alone [] c buffer = refl
first_alone (x ∷ xs) c buffer = first_alone xs c (step x buffer)

pub second_alone :
    (xs : List Step) (c : Caller) (buffer : Bytes)
    → turns
        (times (suc (length xs)) second)
        (record { buffer = buffer; one = c; other = starting xs })
      ≡ record {
        buffer = run_steps xs buffer;
        one = c;
        other = record { todo = []; text = some (run_steps xs buffer) };
      }
unfolding turn
second_alone [] c buffer = refl
second_alone (x ∷ xs) c buffer = second_alone xs c (step x buffer)

module _ (f g : Field) (fs gs : List Field) (p q p' q' m n buffer : Bytes) where
  abbrev mine : List Step
  mine = prepend_steps (f ∷ fs) p q m

  abbrev theirs : List Step
  theirs = prepend_steps (g ∷ gs) p' q' n

  -- One call after the other.
  abbrev pub in_turn : List Turn
  in_turn = times (suc (length mine)) first ++ times (suc (length theirs)) second

  -- The first call has reset the buffer when the second one runs to its end; then the first goes on.
  abbrev pub overlapping : List Turn
  overlapping = first ∷ times (suc (length theirs)) second ++ times (length mine) first

  -- Calls that do not overlap return each its own fields and message.
  pub in_turn-own :
      ((turns in_turn (both mine theirs buffer)).one.text ≡ some (prepended (f ∷ fs) p q ++ m))
      × ((turns in_turn (both mine theirs buffer)).other.text
          ≡ some (prepended (g ∷ gs) p' q' ++ n))
  in_turn-own =
      let ends : turns in_turn (both mine theirs buffer) ≡ _ =
        turns-append (times (suc (length mine)) first) (times (suc (length theirs)) second)
          (both mine theirs buffer)
        ∙ ap (turns (times (suc (length theirs)) second))
            (first_alone mine (starting theirs) buffer)
        ∙ second_alone theirs (record { todo = []; text = some (run_steps mine buffer) })
            (run_steps mine buffer) in
      (
        ap (λ (s : Callers). s.one.text) ends
            ∙ ap some (run_steps-prepend_steps (f ∷ fs) p q m buffer),
        ap (λ (s : Callers). s.other.text) ends
            ∙ ap some (run_steps-prepend_steps (g ∷ gs) p' q' n (run_steps mine buffer)),
      )

  -- If a second call runs from its start to its end just after a first one has reset the buffer, the first
  -- call returns the fields and the message of the second before its own; the second returns its own.
  pub overlapping-mixes :
      ((turns overlapping (both mine theirs buffer)).one.text
        ≡ some ((prepended (g ∷ gs) p' q' ++ n) ++ (prepended (f ∷ fs) p q ++ m)))
      × ((turns overlapping (both mine theirs buffer)).other.text
          ≡ some (prepended (g ∷ gs) p' q' ++ n))
  unfolding prepend_steps turn
  overlapping-mixes =
      let rest = write_fields (f ∷ fs) p q ++ write_string m ∷ [] in
      let after : run_steps theirs [] ≡ prepended (g ∷ gs) p' q' ++ n =
        run_steps-prepend_steps (g ∷ gs) p' q' n [] in
      let ends : turns overlapping (both mine theirs buffer) ≡ _ =
        turns-append (times (suc (length theirs)) second) (times (suc (length rest)) first)
          (both rest theirs [])
        ∙ ap (turns (times (suc (length rest)) first)) (second_alone theirs (starting rest) [])
        ∙ first_alone rest (record { todo = []; text = some (run_steps theirs []) })
            (run_steps theirs []) in
      (
        ap (λ (s : Callers). s.one.text) ends
            ∙ ap some (
                run_steps-written (f ∷ fs) p q m (run_steps theirs [])
                ∙ ap (λ b. b ++ (prepended (f ∷ fs) p q ++ m)) after),
        ap (λ (s : Callers). s.other.text) ends ∙ ap some after,
      )
