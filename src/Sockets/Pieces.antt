-- ===== src/Sockets/Pieces.antt =====
-- What the loops of recv_all and send_all move, however the kernel splits it into calls.
use native.Mathlib.Numerals.{unary_clauses}
use network_file_storage.Prelude.{
  drop-drop, drop-append, take-append, lt→ltb, take-append-drop, length-take, length-drop,
  length-append, ℕ, zero, suc, ◌+◌, ◌<◌, ◌≤◌, false, List, [], ◌∷◌, ◌++◌, Bytes, ltb, length, take,
  drop, arith, ◌≡◌, refl, sym, ap, ◌∙◌, append_assoc, append-nil,
}
use network_file_storage.Protocol.Header.{memcpy_to}
use network_file_storage.Sockets.{
  Answer, moved, failed, eintr, epipe, other_error, returned, recv_loop, send_loop,
}

-- `Moves answers k rest`: the first of the answers move `k` bytes in all, in pieces that are not
-- empty and with interrupted calls between them, and the answers `rest` follow.
pub data Moves : List Answer → ℕ → List Answer → Type 0 where
  done : {rest : List Answer} {k : ℕ} → k ≡ 0 → Moves rest k rest
  again :
      {answers rest : List Answer} {k : ℕ}
      → 0 < k
      → Moves answers k rest
      → Moves (failed eintr ∷ answers) k rest
  piece :
      {answers rest : List Answer} (n : ℕ) {j k : ℕ}
      → Moves answers j rest
      → k ≡ suc n + j
      → Moves (moved (suc n) ∷ answers) k rest

suc_plus : (a b : ℕ) → suc a + b ≡ suc (a + b)
suc_plus a b = omega arith

take-add : (a b : ℕ) (xs : Bytes) → take (a + b) xs ≡ take a xs ++ take b (drop a xs)
take-add zero b xs = ap (λ n. take n xs) (omega arith)
take-add (suc a) b (x ∷ xs) = rw (suc_plus a b) (ap (◌∷◌ x) (take-add a b xs))
take-add (suc a) zero [] = simp unary_clauses refl
take-add (suc a) (suc b) [] = simp unary_clauses refl

-- What two pieces in a row append.
pieces_join :
    (wire buf : Bytes) (total n j k : ℕ)
    → k ≡ n + j
    → (wire ++ take n (drop total buf)) ++ take j (drop (total + n) buf)
      ≡ wire ++ take k (drop total buf)
pieces_join wire buf total n j k e =
    rw (e, take-add n j (drop total buf), drop-drop total n buf)
      (append_assoc wire (take n (drop total buf)) (take j (drop (total + n) buf)))

send_loop_full :
    (answers : List Answer) (buf : Bytes) (len total : ℕ) (wire : Bytes)
    → ltb total len ≡ false
    → send_loop answers buf len total wire ≡ returned total wire answers []
unfolding send_loop
send_loop_full [] buf len total wire e = rw e refl
send_loop_full (moved n ∷ answers) buf len total wire e = rw e refl
send_loop_full (failed eintr ∷ answers) buf len total wire e = rw e refl
send_loop_full (failed epipe ∷ answers) buf len total wire e = rw e refl
send_loop_full (failed other_error ∷ answers) buf len total wire e = rw e refl

recv_loop_full :
    (answers : List Answer) (len total : ℕ) (out stream : Bytes)
    → ltb total len ≡ false
    → recv_loop answers len total out stream ≡ returned total out answers stream
unfolding recv_loop
recv_loop_full [] len total out stream e = rw e refl
recv_loop_full (moved zero ∷ answers) len total out stream e = rw e refl
recv_loop_full (moved (suc n) ∷ answers) len total out stream e = rw e refl
recv_loop_full (failed eintr ∷ answers) len total out stream e = rw e refl
recv_loop_full (failed epipe ∷ answers) len total out stream e = rw e refl
recv_loop_full (failed other_error ∷ answers) len total out stream e = rw e refl

full : (len : ℕ) → ltb len len ≡ false
full len = ground arith

pub send_loop-Moves :
    (buf : Bytes) (len total k : ℕ) (answers rest : List Answer) (wire : Bytes)
    → Moves answers k rest
    → total + k ≡ len
    → send_loop answers buf len total wire ≡ returned len (wire ++ take k (drop total buf)) rest []
unfolding send_loop
send_loop-Moves buf len total k answers rest wire (done z) e =
    let t : total ≡ len = omega arith in
    rw (z, t, append-nil wire) (send_loop_full answers buf len len wire (full len))
send_loop-Moves buf len total k (failed eintr ∷ answers) rest wire (again p m) e =
    rw (lt→ltb total len (omega arith)) (send_loop-Moves buf len total k answers rest wire m e)
send_loop-Moves buf len total k (moved (suc n) ∷ answers) rest wire (piece q {j} m f) e =
    rw (lt→ltb total len (omega arith), ← pieces_join wire buf total (suc q) j k f)
      (send_loop-Moves buf len (total + suc q) j answers rest
        (wire ++ take (suc q) (drop total buf)) m (omega arith))

memcpy_to_end :
    (a out b : Bytes) → memcpy_to (a ++ out) (length a) b ≡ a ++ (b ++ drop (length b) out)
unfolding memcpy_to
memcpy_to_end a out b =
    rw (take-append a out, ← drop-drop (length a) (length b) (a ++ out), drop-append a out)

pub memcpy_to_twice :
    (out a b : Bytes) (t : ℕ)
    → t ≤ length out
    → memcpy_to (memcpy_to out t a) (t + length a) b ≡ memcpy_to out t (a ++ b)
unfolding memcpy_to
memcpy_to_twice out a b zero h =
    let z : (n : ℕ) → 0 + n ≡ n = λ n. omega arith in
    rw (z (length a), z (length (a ++ b)), length-append a b, ← drop-drop (length a) (length b) out)
      (memcpy_to_end a (drop (length a) out) b
        ∙ sym (append_assoc a b (drop (length b) (drop (length a) out))))
memcpy_to_twice [] a b (suc t) h = absurd (omega arith)
memcpy_to_twice (x ∷ out) a b (suc t) h =
    rw (suc_plus t (length a), suc_plus (t + length a) (length b), suc_plus t (length (a ++ b)))
      (ap (◌∷◌ x) (memcpy_to_twice out a b t (omega arith)))

memcpy_to_none : (out : Bytes) (t : ℕ) → memcpy_to out t [] ≡ out
unfolding memcpy_to
memcpy_to_none out t = let z : t + 0 ≡ t = omega arith in rw (z) (take-append-drop t out)

memcpy_to_reaches :
    (out a : Bytes) (t : ℕ) → t ≤ length out → t + length a ≤ length (memcpy_to out t a)
unfolding memcpy_to
memcpy_to_reaches out a t h = omega (
  arith,
  length-append (take t out) (a ++ drop (t + length a) out),
  length-append a (drop (t + length a) out),
  length-take t out,
)

length-take_le : (n : ℕ) (xs : Bytes) → n ≤ length xs → length (take n xs) ≡ n
length-take_le n xs h = omega (arith, length-take n xs)

-- What two pieces in a row store.
received_join :
    (out stream : Bytes) (total n j k : ℕ)
    → k ≡ n + j
    → total ≤ length out
    → n ≤ length stream
    → memcpy_to (memcpy_to out total (take n stream)) (total + n) (take j (drop n stream))
      ≡ memcpy_to out total (take k stream)
received_join out stream total n j k e h g = rw (
  e,
  take-add n j stream,
  ← memcpy_to_twice out (take n stream) (take j (drop n stream)) total h,
  length-take_le n stream g,
)

pub recv_loop-Moves :
    (len total k : ℕ) (out stream : Bytes) (answers rest : List Answer)
    → Moves answers k rest
    → total + k ≡ len
    → total ≤ length out
    → k ≤ length stream
    → recv_loop answers len total out stream
      ≡ returned len (memcpy_to out total (take k stream)) rest (drop k stream)
unfolding recv_loop
recv_loop-Moves len total k out stream answers rest (done z) e h g =
    let t : total ≡ len = omega arith in
    rw (z, t, memcpy_to_none out len) (recv_loop_full answers len len out stream (full len))
recv_loop-Moves len total k out stream (failed eintr ∷ answers) rest (again p m) e h g =
    rw (lt→ltb total len (omega arith))
      (recv_loop-Moves len total k out stream answers rest m e h g)
recv_loop-Moves len total k out stream (moved (suc n) ∷ answers) rest (piece q {j} m f) e h g =
    let here : suc q ≤ length stream = omega arith in
    let reached : total + suc q ≤ length (memcpy_to out total (take (suc q) stream)) = omega (
      arith,
      memcpy_to_reaches out (take (suc q) stream) total h,
      length-take_le (suc q) stream here,
    ) in
    rw
      (
        lt→ltb total len (omega arith),
        ← received_join out stream total (suc q) j k f h here,
        f,
        ← drop-drop (suc q) j stream,
      )
      (recv_loop-Moves len (total + suc q) j (memcpy_to out total (take (suc q) stream))
        (drop (suc q) stream) answers rest m (omega arith) reached
        (omega (arith, length-drop (suc q) stream)))
