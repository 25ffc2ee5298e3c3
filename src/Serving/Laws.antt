-- ===== src/Serving/Laws.antt =====
-- How the servers of m04 and m10 end.
use go_learning.Common.{
  ℕ, List, [], ◌∷◌, ◌++◌, Option, none, some, true, false, All, Bytes, ◌≡◌, refl, ap, ◌∙◌, inl, inr,
  Bool-cases,
}
use go_learning.GoErrors.{Err, is, server_closed}
use go_learning.Serving.{
  Occurrence, listen_returned, signalled, listen_error, sent_or_wait, run, wait_for_end,
  customer_api, api, exit_code, exit_or_wait,
}

-- What ends a server, if anything does.
pub data End : Type 0 where
  still_serving : End
  cannot_serve : Err → End
  by_signal : End

-- `ListenAndServe` returned nil, or that the server was closed.
abbrev pub IsQuiet : Occurrence → Type 0
IsQuiet (listen_returned none) = Unit
IsQuiet (listen_returned (some e)) = is server_closed e ≡ true
IsQuiet signalled = ⊥

abbrev pub BeginsWith : List Occurrence → End → Type 0
BeginsWith os still_serving = os ≡ []
BeginsWith os (cannot_serve e) =
    (rest : List Occurrence) × (os ≡ listen_returned (some e) ∷ rest) × (is server_closed e ≡ false)
BeginsWith os by_signal = (rest : List Occurrence) × (os ≡ signalled ∷ rest)

-- `end` is the first thing that is not quiet.
abbrev pub EndsBy : List Occurrence → End → Type 0
EndsBy os end =
    (quiet rest : List Occurrence) × (os ≡ quiet ++ rest) × All IsQuiet quiet × BeginsWith rest end

abbrev pub run_result : Option Err → End → Option (Option Err)
run_result shutdown still_serving = none
run_result shutdown (cannot_serve e) = some (some e)
run_result shutdown by_signal = some shutdown

quiet_listen : (r : Option Err) → IsQuiet (listen_returned r) → listen_error r ≡ none
unfolding listen_error
quiet_listen none q = refl
quiet_listen (some e) q = rw q

loud_listen : (e : Err) → is server_closed e ≡ false → listen_error (some e) ≡ some e
unfolding listen_error
loud_listen e q = rw q

run-quiet :
    (shutdown : Option Err) (quiet rest : List Occurrence)
    → All IsQuiet quiet
    → run shutdown (quiet ++ rest) ≡ run shutdown rest
unfolding run
run-quiet shutdown [] rest h = refl
run-quiet shutdown (signalled ∷ quiet) rest (q, h) = absurd q
run-quiet shutdown (listen_returned r ∷ quiet) rest (q, h) =
    ap (λ o. sent_or_wait o (run shutdown (quiet ++ rest))) (quiet_listen r q)
    ∙ run-quiet shutdown quiet rest h

run-BeginsWith :
    (shutdown : Option Err) (os : List Occurrence) (end : End)
    → BeginsWith os end
    → run shutdown os ≡ run_result shutdown end
unfolding run
run-BeginsWith shutdown os still_serving e = ap (run shutdown) e
run-BeginsWith shutdown os (cannot_serve x) (rest, e, loud) =
    ap (run shutdown) e ∙ ap (λ o. sent_or_wait o (run shutdown rest)) (loud_listen x loud)
run-BeginsWith shutdown os by_signal (rest, e) = ap (run shutdown) e

-- 1 for a failure, 0 for none.
abbrev pub failure : Option Err → ℕ
failure none = 0
failure (some e) = 1

abbrev pub code_at : ℕ → End → Option ℕ
code_at at_signal still_serving = none
code_at at_signal (cannot_serve e) = some 1
code_at at_signal by_signal = some at_signal

exit_code-run_result :
    (shutdown : Option Err) (end : End)
    → exit_code (run_result shutdown end) ≡ code_at (failure shutdown) end
exit_code-run_result shutdown still_serving = refl
exit_code-run_result shutdown (cannot_serve e) = refl
exit_code-run_result none by_signal = refl
exit_code-run_result (some e) by_signal = refl

wait-quiet :
    (quiet rest : List Occurrence)
    → All IsQuiet quiet
    → wait_for_end (quiet ++ rest) ≡ wait_for_end rest
unfolding wait_for_end
wait-quiet [] rest h = refl
wait-quiet (signalled ∷ quiet) rest (q, h) = absurd q
wait-quiet (listen_returned r ∷ quiet) rest (q, h) =
    ap (λ o. exit_or_wait o (wait_for_end (quiet ++ rest))) (quiet_listen r q)
    ∙ wait-quiet quiet rest h

wait-BeginsWith :
    (os : List Occurrence) (end : End) → BeginsWith os end → wait_for_end os ≡ code_at 0 end
unfolding wait_for_end
wait-BeginsWith os still_serving e = ap wait_for_end e
wait-BeginsWith os (cannot_serve x) (rest, e, loud) =
    ap wait_for_end e ∙ ap (λ o. exit_or_wait o (wait_for_end rest)) (loud_listen x loud)
wait-BeginsWith os by_signal (rest, e) = ap wait_for_end e

some_end : (os : List Occurrence) → (end : End) × EndsBy os end
some_end [] = (still_serving, ([], [], refl, tt, refl))
some_end (signalled ∷ rest) = (by_signal, ([], signalled ∷ rest, refl, tt, (rest, refl)))
some_end (listen_returned none ∷ rest) =
    let (end, (quiet, more, e, q, b)) = some_end rest in
    (end, (listen_returned none ∷ quiet, more, ap (λ os. listen_returned none ∷ os) e, (tt, q), b))
some_end (listen_returned (some x) ∷ rest) = elim (Bool-cases (is server_closed x)) [
  | inl closed ↦
      let (end, (quiet, more, e, q, b)) = some_end rest in
      let first = listen_returned (some x) in
      (end, (first ∷ quiet, more, ap (λ os. first ∷ os) e, (closed, q), b))
  | inr loud ↦ (cannot_serve x, ([], listen_returned (some x) ∷ rest, refl, tt, (rest, refl, loud)))
]

-- The servers of m10 and m04 both go on until the first signal or the first error of
-- `ListenAndServe` other than that the server was closed. By such an error both exit with 1. By a
-- signal m10 exits with 1 if the graceful shutdown fails and with 0 if not, and m04 with 0 in both
-- cases.
pub servers_end :
    (env : Bytes → Bytes) (shutdown : Option Err) (os : List Occurrence)
    → (end : End) × EndsBy os end
      × ((customer_api env shutdown os).1 ≡ code_at (failure shutdown) end)
      × ((api env os).2 ≡ code_at 0 end)
unfolding customer_api api
servers_end env shutdown os =
    let (end, (quiet, rest, e, q, b)) = some_end os in
    (
      end,
      (quiet, rest, e, q, b),
      ap (λ l. exit_code (run shutdown l)) e
          ∙ ap exit_code (run-quiet shutdown quiet rest q ∙ run-BeginsWith shutdown rest end b)
          ∙ exit_code-run_result shutdown end,
      ap wait_for_end e ∙ wait-quiet quiet rest q ∙ wait-BeginsWith rest end b,
    )
