-- ===== src/Input/Fifo.antt =====
-- kernel/input.c against a bounded queue of characters, oldest first.
use mathlib.Core.List.{append_assoc}
use beryllium.Base.{
  ℕ, zero, suc, ◌-◌, ◌≤◌, ◌<◌, ◌≡◌, ◌≢◌, refl, sym, ap, ◌∙◌, inl, inr, true, Option, none, some,
  List, [], ◌∷◌, ◌++◌, arith, ltb, ltb→lt, ◌==◌, Bool-cases, if◌then◌else◌, length, length-append,
  set, replicate, length-replicate, set-append_length,
}
use beryllium.Input.{Input, size, shift_from, add_char, read}
use beryllium.Input.Shift.{shift_lem}

abbrev pub AllNonzero : List ℕ → Type 0
AllNonzero [] = Unit {0}
AllNonzero (x ∷ xs) = (x ≢ 0) × AllNonzero xs

abbrev zeros : ℕ → List ℕ
zeros n = replicate n 0

-- The buffer that holds the characters of `q`, and zeros behind them.
abbrev pub image : List ℕ → Input
image q = record { buffer = q ++ zeros (size - length q); count = length q }

pub data Op : Type 0 where
  add : ℕ → Op
  get : Op

-- The queue: `none` is an overflow; 0 is no character, and the reply of an empty queue.
unfoldable pub serve : List Op → List ℕ → Option (List ℕ × List ℕ)
serve [] q = some (q, [])
serve (add c ∷ ops) q =
    let next = serve ops (q ++ (c ∷ [])) in
    let same = serve ops q in if c == 0 then same else if ltb (length q) size then next else none
serve (get ∷ ops) [] = elim (serve ops []) [ none ↦ none | some (q, out) ↦ some (q, 0 ∷ out) ]
serve (get ∷ ops) (c ∷ q) = elim (serve ops q) [ none ↦ none | some (r, out) ↦ some (r, c ∷ out) ]

-- The calls of kernel/input.c in the same order, with a byte of 0 behind the array.
pub run : List Op → Input → Option (Input × List ℕ)
run [] b = some (b, [])
run (add c ∷ ops) b = elim (add_char c b) [ none ↦ none | some b' ↦ run ops b' ]
run (get ∷ ops) b =
    let (b', c) = read 0 b in elim (run ops b') [ none ↦ none | some (r, out) ↦ some (r, c ∷ out) ]

zeros_snoc : (n : ℕ) → zeros n ++ (0 ∷ []) ≡ zeros (suc n)
zeros_snoc zero = refl
zeros_snoc (suc n) = ap (λ xs. 0 ∷ xs) (zeros_snoc n)

zeros_pos : (n : ℕ) → 0 < n → zeros n ≡ 0 ∷ zeros (n - 1)
zeros_pos zero h = absurd (omega arith)
zeros_pos (suc n) h = ap (λ k. zeros (suc k)) (omega arith)

AllNonzero-snoc : (q : List ℕ) (c : ℕ) → AllNonzero q → c ≢ 0 → AllNonzero (q ++ (c ∷ []))
AllNonzero-snoc [] c h ne = (ne, tt)
AllNonzero-snoc (x ∷ xs) c h ne = (h.0, AllNonzero-snoc xs c h.1 ne)

image_snoc :
    (c : ℕ) (q : List ℕ)
    → length q < size
    → set (q ++ zeros (size - length q)) (length q) c
      ≡ (q ++ (c ∷ [])) ++ zeros (size - length (q ++ (c ∷ [])))
image_snoc c q room =
    let less : size - length q - 1 ≡ size - length (q ++ (c ∷ [])) =
      omega (arith, length-append q (c ∷ [])) in
    ap (λ zs. set (q ++ zs) (length q) c) (zeros_pos (size - length q) (omega arith))
    ∙ set-append_length q (zeros (size - length q - 1)) 0 c
    ∙ ap (λ k. q ++ (c ∷ zeros k)) less
    ∙ sym (append_assoc q (c ∷ []) (zeros (size - length (q ++ (c ∷ [])))))

add_char-image :
    (c : ℕ) (q : List ℕ)
    → c ≢ 0
    → add_char c (image q) ≡ (if ltb (length q) size then some (image (q ++ (c ∷ []))) else none)
unfolding add_char
add_char-image c q ne = ground (arith, image_snoc c q, length-append q (c ∷ []))

length-zeros : (n : ℕ) → length (zeros n) ≡ n
length-zeros n = length-replicate n 0

read-image_nil : read 0 (image []) ≡ (image [], 0)
unfolding read
read-image_nil = refl

read-image_cons :
    (c : ℕ) (q : List ℕ) → c ≢ 0 → suc (length q) ≤ size → read 0 (image (c ∷ q)) ≡ (image q, c)
unfolding read
read-image_cons c q ne fits =
    let k = size - suc (length q) in
    let shifted =
      shift_lem 0 0 (q ++ zeros k) (omega (arith, length-append q (zeros k), length-zeros k)) in
    let whole : shift_from size 0 0 (0 ∷ (q ++ zeros k)) ≡ q ++ zeros (size - length q) =
      shifted
      ∙ append_assoc q (zeros k) (0 ∷ [])
      ∙ ap (λ zs. q ++ zs)
          (zeros_snoc k ∙ ap zeros {x = suc k} {y = size - length q} (omega arith)) in
    ground (arith, whole)

abbrev pub rendered : Option (List ℕ × List ℕ) → Option (Input × List ℕ)
rendered none = none
rendered (some (q, out)) = some (image q, out)

add_char-nul : (c : ℕ) (b : Input) → (c == 0) ≡ true → add_char c b ≡ some b
unfolding add_char
add_char-nul c b z = ground arith

run-add :
    (c : ℕ) (ops : List Op) (b b' : Input)
    → add_char c b ≡ some b'
    → run (add c ∷ ops) b ≡ run ops b'
unfolding run
run-add c ops b b' h = ground arith

run-add_overflow :
    (c : ℕ) (ops : List Op) (b : Input) → add_char c b ≡ none → run (add c ∷ ops) b ≡ none
unfolding run
run-add_overflow c ops b h = ground arith

-- While a byte of 0 lies behind the array, any sequence of `input_add_char` and `input_read` returns
-- the characters of a queue of at most 255, oldest first and 0 when it is empty, and leaves the
-- rest of the queue in the buffer; it writes past the array exactly if the queue overflows.
pub run_refines :
    (ops : List Op) (q : List ℕ)
    → AllNonzero q
    → length q ≤ size
    → run ops (image q) ≡ rendered (serve ops q)
unfolding run serve
run_refines [] q nz fits = refl
run_refines (add c ∷ ops) q nz fits = elim (Bool-cases (c == 0)) [
  | inl z ↦ run-add c ops _ _ (add_char-nul c _ z) ∙ run_refines ops q nz fits ∙ rw z
  | inr some_char ↦
      let ne : c ≢ 0 = ground arith in
      elim (Bool-cases (ltb (length q) size)) [
        | inl room ↦
            run-add c ops _ _ (add_char-image c q ne ∙ rw room)
            ∙ run_refines ops (q ++ (c ∷ [])) (AllNonzero-snoc q c nz ne)
                (omega (arith, length-append q (c ∷ []), ltb→lt _ _ room))
            ∙ rw (some_char, room)
        | inr full ↦
            run-add_overflow c ops _ (add_char-image c q ne ∙ rw full) ∙ rw (some_char, full)
      ]
]
run_refines (get ∷ ops) [] nz fits = ground (arith, read-image_nil, run_refines ops [] nz fits)
run_refines (get ∷ ops) (c ∷ q) nz fits =
    ground (arith, read-image_cons c q nz.0 fits, run_refines ops q nz.1 (omega arith))
