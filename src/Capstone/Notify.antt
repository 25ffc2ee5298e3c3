-- ===== src/Capstone/Notify.antt =====
-- m14-capstone/notify/notify.go: the sender that counts and prints.
use go_learning.Common.{
  ℕ, ◌+◌, ◌%◌, List, [], ◌∷◌, ◌++◌, Option, none, Bool, true, Bytes, length, map, if◌then◌else◌,
  ◌≡◌, refl, ap, ◌∙◌, sym, arith,
}
use mathlib.Core.List.{append_assoc, append-nil}
use go_learning.Common.Int.{word}
use go_learning.GoErrors.{str, Err}
use go_learning.Stream.{CustomerEvent}

-- `sent` is the 64-bit pattern of the counter, `has_out` whether `out` is not nil, `lines` what went
-- to `out`.
pub record LoggingSender : Type 0 where
  pub sent : ℕ
  pub has_out : Bool
  pub lines : List Bytes

unfoldable pub new_logging_sender : Bool → LoggingSender
new_logging_sender has_out = record { sent = 0; has_out = has_out; lines = [] }

-- `fmt.Sprintf("welcome sent -> %s (%s)", e.Name, e.Email)`
abbrev pub welcome_line : CustomerEvent → Bytes
welcome_line e = str "welcome sent -> " ++ (e.name ++ (str " (" ++ (e.email ++ str ")")))

unfoldable pub send : LoggingSender → CustomerEvent → Option Err × LoggingSender
send s e = (
  none,
  record {
    sent = (s.sent + 1) % word;
    has_out = s.has_out;
    lines = if s.has_out then s.lines ++ welcome_line e ∷ [] else s.lines;
  },
)

-- One event after the other.
abbrev pub send_all : LoggingSender → List CustomerEvent → LoggingSender
send_all s [] = s
send_all s (e ∷ es) = send_all (send s e).1 es

send_all_from :
    (n k : ℕ) (b : Bool) (lines : List Bytes) (es : List CustomerEvent)
    → n ≡ k % word
    → ((send_all (record { sent = n; has_out = b; lines = lines }) es).sent
        ≡ (k + length es) % word)
unfolding send
send_all_from n k b lines [] h = h ∙ ap (λ n. n % word) (omega arith)
send_all_from n k b lines (e ∷ es) h =
    send_all_from ((n + 1) % word) (k + 1) b (if b then lines ++ welcome_line e ∷ [] else lines) es
      (omega (arith, h))
    ∙ ap (λ n. n % word) (omega arith)

send_all_lines :
    (n : ℕ) (lines : List Bytes) (es : List CustomerEvent)
    → (send_all (record { sent = n; has_out = true; lines = lines }) es).lines
      ≡ lines ++ map welcome_line es
unfolding send
send_all_lines n lines [] = sym (append-nil lines)
send_all_lines n lines (e ∷ es) =
    send_all_lines ((n + 1) % word) (lines ++ welcome_line e ∷ []) es
    ∙ append_assoc lines (welcome_line e ∷ []) (map welcome_line es)

-- The sender never fails; after sending a list of events a new one counts them, modulo 2^64, and has
-- printed one welcome line for each, in order.
pub send_all_lem :
    (es : List CustomerEvent)
    → ((s : LoggingSender) (e : CustomerEvent) → (send s e).0 ≡ none)
      × ((send_all (new_logging_sender true) es).sent ≡ length es % word)
      × ((send_all (new_logging_sender true) es).lines ≡ map welcome_line es)
unfolding send new_logging_sender
send_all_lem es = (
  λ s e. refl,
  send_all_from 0 0 true [] es (omega arith) ∙ ap (λ n. n % word) (omega arith),
  send_all_lines 0 [] es,
)
