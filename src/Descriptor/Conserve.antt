-- ===== src/Descriptor/Conserve.antt =====
-- invoke_deferred_io loses no operation and completes none twice.
use corosio.Base.{
  ℕ, ◌+◌, ◌≡◌, refl, ap, ◌∙◌, sym, Bool, true, false, not, ◌||◌, List, [], ◌∷◌, ◌++◌, ◌==◌,
  if◌then◌else◌, arith, Bool-cases, inl, inr,
}
use corosio.Descriptor.{
  complete, Kind, conn, rd, wr, wait_rd, wait_wr, wait_er, code, ◌is◌, count_kind, Op, Kernel,
  Events, Descriptor, Deferred, would_block, attempt, set_op, finish, try_io, complete_parked,
  read_part, finish_connect, finish_write, note_write, write_part, error_part, event_error,
  dispatch_with, dispatch_events, take_events, deferred_io, is_none,
}

pub count_kind-append :
    (k : Kind) (xs ys : List Kind) → count_kind k (xs ++ ys) ≡ count_kind k xs + count_kind k ys
count_kind-append k [] ys = omega arith
count_kind-append k (x ∷ xs) ys = omega (arith, count_kind-append k xs ys)

abbrev decode : ℕ → Kind
decode n =
    if n == 0
    then conn
    else if n == 1
    then rd
    else if n == 2
    then wr
    else if n == 3
    then wait_rd
    else if n == 4
    then wait_wr
    else wait_er

decode-code : (k : Kind) → decode (code k) ≡ k
decode-code conn = refl
decode-code rd = refl
decode-code wr = refl
decode-code wait_rd = refl
decode-code wait_wr = refl
decode-code wait_er = refl

pub code_inj : (j k : Kind) → code j ≡ code k → j ≡ k
code_inj j k e = sym (decode-code j) ∙ ap decode e ∙ decode-code k

pub same_value {ℓ} : {A : Type ℓ} (f : Kind → A) (j k : Kind) → j is k ≡ true → f j ≡ f k
same_value f j k e = ap f (code_inj j k (ground arith))

pub is_refl : (k : Kind) → k is k ≡ true
is_refl conn = refl
is_refl rd = refl
is_refl wr = refl
is_refl wait_rd = refl
is_refl wait_wr = refl
is_refl wait_er = refl

abbrev pub bit : Bool → ℕ
bit b = if b then 1 else 0

-- How often an operation is in the queue or in its slot.
abbrev pub tally : Kind → Deferred → ℕ
tally k s = count_kind k s.local_ops + bit (s.desc.parked k)

finish-tally :
    (k j : Kind) (s : Deferred) → s.desc.parked k ≡ true → tally j (finish k s) ≡ tally j s
unfolding finish
finish-tally k j s e =
    ground (arith, count_kind-append j s.local_ops (k ∷ []), same_value s.desc.parked k j)

complete_parked-tally :
    (err : ℕ) (k j : Kind) (s : Deferred) → tally j (complete_parked err k s) ≡ tally j s
unfolding complete_parked
complete_parked-tally err k j s = elim (Bool-cases (s.desc.parked k)) [
  | inl e ↦ rw (e) (finish-tally k j (set_op k (complete err 0 (s.ops k)) s) e)
  | inr e ↦ rw (e) refl
]

try_io-tally :
    (env : Kernel) (err : ℕ) (k j : Kind) (s : Deferred)
    → s.desc.parked k ≡ true
    → tally j (try_io env err k s) ≡ tally j s
unfolding try_io
try_io-tally env err k j s e =
    elim (Bool-cases (would_block env (attempt env err k (s.ops k)).errn)) [
      | inl b ↦ rw (b) refl
      | inr b ↦ rw (b) (finish-tally k j (set_op k (attempt env err k (s.ops k)) s) e)
    ]

read_part-tally :
    (env : Kernel) (err : ℕ) (j : Kind) (s : Deferred) → tally j (read_part env err s) ≡ tally j s
unfolding read_part
read_part-tally env err j s = elim (Bool-cases (s.desc.parked rd)) [
  | inl e ↦
      rw (e)
        (complete_parked-tally err wait_rd j (try_io env err rd s) ∙ try_io-tally env err rd j s e)
  | inr e ↦ rw (e) (
      complete_parked-tally err wait_rd j (record s { desc = record s.desc { read_ready = true } }))
]

finish_connect-tally :
    (env : Kernel) (err : ℕ) (j : Kind) (s : Deferred)
    → tally j (finish_connect env err s) ≡ tally j s
unfolding finish_connect
finish_connect-tally env err j s = elim (Bool-cases (s.desc.parked conn)) [
  | inl e ↦ rw (e) (finish-tally conn j (set_op conn (attempt env err conn (s.ops conn)) s) e)
  | inr e ↦ rw (e) refl
]

finish_write-tally :
    (env : Kernel) (err : ℕ) (j : Kind) (s : Deferred)
    → tally j (finish_write env err s) ≡ tally j s
unfolding finish_write
finish_write-tally env err j s = elim (Bool-cases (s.desc.parked wr)) [
  | inl e ↦ rw (e) (try_io-tally env err wr j s e)
  | inr e ↦ rw (e) refl
]

note_write-tally : (b : Bool) (j : Kind) (s : Deferred) → tally j (note_write b s) ≡ tally j s
unfolding note_write
note_write-tally true j s = refl
note_write-tally false j s = refl

write_part-tally :
    (env : Kernel) (err : ℕ) (j : Kind) (s : Deferred) → tally j (write_part env err s) ≡ tally j s
unfolding write_part
write_part-tally env err j s =
    let s1 = finish_connect env err s in
    let s2 = finish_write env err s1 in
    let s3 = note_write (s.desc.parked conn || s.desc.parked wr) s2 in
    complete_parked-tally err wait_wr j s3
    ∙ note_write-tally (s.desc.parked conn || s.desc.parked wr) j s2
    ∙ finish_write-tally env err j s1
    ∙ finish_connect-tally env err j s

error_part-tally : (err : ℕ) (j : Kind) (s : Deferred) → tally j (error_part err s) ≡ tally j s
unfolding error_part
error_part-tally err j s =
    let s1 = complete_parked err rd s in
    let s2 = complete_parked err wr s1 in
    let s3 = complete_parked err conn s2 in
    let s4 = complete_parked err wait_rd s3 in
    complete_parked-tally err wait_wr j s4
    ∙ complete_parked-tally err wait_rd j s3
    ∙ complete_parked-tally err conn j s2
    ∙ complete_parked-tally err wr j s1
    ∙ complete_parked-tally err rd j s

-- A step taken under a test keeps what both branches keep.
tally-if :
    (b : Bool) (j : Kind) (s t : Deferred)
    → tally j s ≡ tally j t
    → tally j (if b then s else t) ≡ tally j t
tally-if true j s t e = e
tally-if false j s t e = refl

dispatch_with-tally :
    (env : Kernel) (ev : Events) (err : ℕ) (j : Kind) (s : Deferred)
    → tally j (dispatch_with env ev err s) ≡ tally j s
unfolding dispatch_with
dispatch_with-tally env ev err j s =
    let s1 = if ev.read then read_part env err s else s in
    let s2 = if ev.write then write_part env err s1 else s1 in
    let s3 = if ev.error || not (err == 0) then complete_parked err wait_er s2 else s2 in
    tally_last (err == 0) j s3 (error_part err s3) (error_part-tally err j s3)
    ∙ tally-if (ev.error || not (err == 0)) j (complete_parked err wait_er s2) s2
        (complete_parked-tally err wait_er j s2)
    ∙ tally-if ev.write j (write_part env err s1) s1 (write_part-tally env err j s1)
    ∙ tally-if ev.read j (read_part env err s) s (read_part-tally env err j s)
  where
    tally_last :
        (b : Bool) (j : Kind) (s t : Deferred)
        → tally j t ≡ tally j s
        → tally j (if b then s else t) ≡ tally j s
    tally_last true j s t e = refl
    tally_last false j s t e = e

dispatch_events-tally :
    (env : Kernel) (ev : Events) (j : Kind) (s : Deferred)
    → tally j (dispatch_events env ev s) ≡ tally j s
unfolding dispatch_events
dispatch_events-tally env ev j s = dispatch_with-tally env ev (event_error env ev) j s

-- invoke_deferred_io neither loses an operation nor completes one twice: each operation that was
-- parked is afterwards either parked still or once among the completed ones, and an operation that
-- was not parked is in neither place.
pub deferred_io-tally :
    (env : Kernel) (d : Descriptor) (ops : Kind → Op) (k : Kind)
    → let s = deferred_io env d ops in
      count_kind k s.local_ops + bit (s.desc.parked k) ≡ bit (d.parked k)
unfolding deferred_io take_events
deferred_io-tally env d ops k =
    let s : Deferred = record { desc = take_events d; ops = ops; local_ops = [] } in
    tally_none (is_none d.ready_events) s (dispatch_events env d.ready_events s)
      (dispatch_events-tally env d.ready_events k s)
    ∙ starts
  where
    starts : 0 + bit (d.parked k) ≡ bit (d.parked k)
    starts = ground arith

    tally_none :
        (b : Bool) (s t : Deferred)
        → tally k t ≡ tally k s
        → tally k (if b then s else t) ≡ tally k s
    tally_none true s t e = refl
    tally_none false s t e = e
