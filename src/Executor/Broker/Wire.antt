-- ===== src/Executor/Broker/Wire.antt =====
-- `_receive_line`: one line of at most `_MAX_MESSAGE_BYTES` bytes from a socket.
pub mod Line
use mathlib.Core.List.{flatten}
use kylin_guard_agent.Base.{
  ℕ, zero, suc, ◌+◌, ◌-◌, ◌≤◌, ◌<◌, String, ◌≡◌, ◌≢◌, refl, Bool, true, false, Option, none, some,
  List, [], ◌∷◌, ◌++◌, arith, ltb, leb, ◌==◌, nat_eq, contains, length, length-append,
  if◌then◌else◌, Bool-cases, inl, inr, ◌⊎◌,
}
use kylin_guard_agent.Base.Exec.{Error, value_error, Result, ok, err}
use Prim.Native.Nat.{min}

-- `_MAX_MESSAGE_BYTES`
abbrev pub max_message_bytes : ℕ
max_message_bytes = 8192

-- `xs[:n]` and `xs[n:]`
abbrev pub split_at {ℓ} : {A : Type ℓ} → ℕ → List A → List A × List A
split_at zero xs = ([], xs)
split_at (suc n) [] = ([], [])
split_at (suc n) (x ∷ xs) = let (ys, zs) = split_at n xs in (x ∷ ys, zs)

-- What is still to arrive, in the portions in which it arrives; an empty portion, or none, is the
-- end of the stream. A peer that stays open and silent, on which `recv` waits, is none of these.
abbrev pub Stream : Type 0
Stream = List (List ℕ)

put_back : List ℕ → Stream → Stream
put_back [] stream = stream
put_back (b ∷ bs) stream = (b ∷ bs) ∷ stream

-- `connection.recv(n)`
unfoldable pub recv : ℕ → Stream → List ℕ × Stream
unfolding put_back
recv n [] = ([], [])
recv n (portion ∷ stream) = let (block, rest) = split_at n portion in (block, put_back rest stream)

-- `buffer.partition(b"\n")[0]`
unfoldable pub line_of : List ℕ → List ℕ
line_of [] = []
line_of (b ∷ bs) = if b == 10 then [] else b ∷ line_of bs

-- what one round does with the block that it received
pub data Round : Type 0 where
  closed more newline : Round

abbrev round : List ℕ → Round
round [] = closed
round (b ∷ bs) = if contains (b ∷ bs) 10 then newline else more

-- The loop; `none` means that the fuel has run out.
unfoldable pub receive : ℕ → List ℕ → Stream → Option (Result (List ℕ))
receive zero buffer stream = none
receive (suc fuel) buffer stream =
    let (block, rest) = recv (min 1024 (max_message_bytes + 1 - length buffer)) stream in
    let again = receive fuel (buffer ++ block) rest in
    if leb (length buffer) max_message_bytes
    then elim (round block) [
      | closed ↦ some (err (value_error "BROKER_MESSAGE_INVALID"))
      | more ↦ again
      | newline ↦ some (ok (line_of (buffer ++ block)))
    ]
    else some (err (value_error "BROKER_MESSAGE_INVALID"))

-- Each round reads at least a byte, so one round more than the limit allows is enough.
unfoldable pub receive_line : Stream → Option (Result (List ℕ))
receive_line stream = receive (max_message_bytes + 2) [] stream
