-- ===== src/Executor/Broker/Wire/Line.antt =====
-- The loop of `_receive_line` against the bytes of the whole stream (backend/app/executor/broker.py).
use Prim.Native.Nat.{min}
use mathlib.Core.List.{append_assoc}
use kylin_guard_agent.Base.{
  ℕ, zero, suc, ◌+◌, ◌-◌, ◌≤◌, ◌<◌, ◌≡◌, ◌≢◌, refl, true, none, some, List, [], ◌∷◌, ◌++◌, arith,
  nat_eq, contains, length, length-append, ap, sym, ◌∙◌,
}
use kylin_guard_agent.Base.Exec.{ok}
use kylin_guard_agent.Executor.Broker.Wire.{
  max_message_bytes, split_at, Stream, put_back, recv, line_of, round, more, newline, receive,
  receive_line,
}

-- all that is still to arrive
abbrev pub bytes : Stream → List ℕ
bytes [] = []
bytes (portion ∷ stream) = portion ++ bytes stream

split_at-append {ℓ} :
    {A : Type ℓ} (n : ℕ) (xs : List A) → (split_at n xs).0 ++ (split_at n xs).1 ≡ xs
split_at-append zero xs = refl
split_at-append (suc n) [] = refl
split_at-append (suc n) (x ∷ xs) = ap (λ l. x ∷ l) (split_at-append n xs)

length-split_at {ℓ} : {A : Type ℓ} (n : ℕ) (xs : List A) → length (split_at n xs).0 ≤ n
length-split_at zero xs = omega arith
length-split_at (suc n) [] = omega arith
length-split_at (suc n) (x ∷ xs) = omega (arith, length-split_at n xs)

bytes-put_back :
    (portion : List ℕ) (stream : Stream) → bytes (put_back portion stream) ≡ portion ++ bytes stream
unfolding put_back
bytes-put_back [] stream = refl
bytes-put_back (b ∷ bs) stream = refl

bytes-recv : (n : ℕ) (stream : Stream) → (recv n stream).0 ++ bytes (recv n stream).1 ≡ bytes stream
unfolding recv
bytes-recv n [] = refl
bytes-recv n (portion ∷ stream) =
    let (block, rest) = split_at n portion in
    rw (bytes-put_back rest stream) (
      sym (append_assoc block rest (bytes stream))
      ∙ ap (λ l. l ++ bytes stream) (split_at-append n portion))

length-recv : (n : ℕ) (stream : Stream) → length (recv n stream).0 ≤ n
unfolding recv
length-recv n [] = omega arith
length-recv n (portion ∷ stream) = length-split_at n portion

length-line_of : (bs : List ℕ) → contains bs 10 ≡ true → length (line_of bs) < length bs
unfolding line_of contains
length-line_of [] h = cc
length-line_of (b ∷ bs) h = ground (arith, length-line_of bs)

-- the first line does not depend on what follows it
line_of-append : (bs cs : List ℕ) → contains bs 10 ≡ true → line_of (bs ++ cs) ≡ line_of bs
unfolding line_of contains
line_of-append [] cs h = cc
line_of-append (b ∷ bs) cs h = ground (arith, line_of-append bs cs)

contains-append_right : (bs cs : List ℕ) → contains cs 10 ≡ true → contains (bs ++ cs) 10 ≡ true
unfolding contains
contains-append_right [] cs h = h
contains-append_right (b ∷ bs) cs h = ground (arith, contains-append_right bs cs)

contains-append_left : (bs cs : List ℕ) → contains bs 10 ≡ true → contains (bs ++ cs) 10 ≡ true
unfolding contains
contains-append_left [] cs h = cc
contains-append_left (b ∷ bs) cs h = ground (arith, contains-append_left bs cs)

round-more : (block : List ℕ) → round block ≡ more → 1 ≤ length block
round-more [] h = cc
round-more (b ∷ bs) h = omega arith

round-newline : (block : List ℕ) → round block ≡ newline → contains block 10 ≡ true
unfolding contains
round-newline [] h = cc
round-newline (b ∷ bs) h = ground arith

-- how much the next round asks for
abbrev room : List ℕ → ℕ
room buffer = min 1024 (max_message_bytes + 1 - length buffer)

-- enough fuel for the bytes that may still come
receive_total :
    (fuel : ℕ) (buffer : List ℕ) (stream : Stream)
    → length buffer ≤ max_message_bytes + 1
    → max_message_bytes + 1 < fuel + length buffer
    → receive fuel buffer stream ≢ none
unfolding receive
receive_total zero buffer stream l h e = omega arith
receive_total (suc fuel) buffer stream l h e =
    let (block, rest) = recv (room buffer) stream in
    ground (
      arith,
      receive_total fuel (buffer ++ block) rest,
      round-more block,
      length-append buffer block,
      length-recv (room buffer) stream,
    )

receive-line :
    (fuel : ℕ) (buffer : List ℕ) (stream : Stream) (line : List ℕ)
    → length buffer ≤ max_message_bytes + 1
    → receive fuel buffer stream ≡ some (ok line)
    → (line ≡ line_of (buffer ++ bytes stream))
      × (contains (buffer ++ bytes stream) 10 ≡ true)
      × (length line ≤ max_message_bytes)
unfolding receive
receive-line zero buffer stream line l h = cc
receive-line (suc fuel) buffer stream line l h =
    let (block, rest) = recv (room buffer) stream in
    let same : (buffer ++ block) ++ bytes rest ≡ buffer ++ bytes stream =
      append_assoc buffer block (bytes rest)
      ∙ ap (λ l. buffer ++ l) (bytes-recv (room buffer) stream) in
    rw (← same) (
      ground (
        arith,
        receive-line fuel (buffer ++ block) rest line,
        round-newline block,
        contains-append_right buffer block,
        contains-append_left (buffer ++ block) (bytes rest),
        line_of-append (buffer ++ block) (bytes rest),
        length-line_of (buffer ++ block),
        length-append buffer block,
        length-recv (room buffer) stream,
      ))

-- `_receive_line` ends on every stream that ends, and a line that it returns is the text in front
-- of the first newline of all that the peer sends, however it is cut into portions, and has at
-- most 8192 bytes.
pub receive_line_lem :
    (stream : Stream)
    → (receive_line stream ≢ none)
      × ((line : List ℕ)
          → receive_line stream ≡ some (ok line)
          → (line ≡ line_of (bytes stream))
            × (contains (bytes stream) 10 ≡ true)
            × (length line ≤ max_message_bytes))
unfolding receive_line
receive_line_lem stream = (
  receive_total (max_message_bytes + 2) [] stream (omega arith) (omega arith),
  λ line h. receive-line (max_message_bytes + 2) [] stream line (omega arith) h,
)
