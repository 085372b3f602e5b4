-- ===== src/Links.antt =====
-- Singly linked chains in memory, as lists of addresses: kernel/scheduler.c and kernel/arch/x86/mman.c link their
-- items so. A chain is given by the function from an address to its link.
use beryllium.Base.{ℕ, ◌≡◌, ◌≢◌, refl, sym, List, [], ◌∷◌, ◌++◌}

-- The addresses linked from `a` on.
abbrev pub Linked : (next : ℕ → ℕ) → ℕ → List ℕ → Type 0
Linked next a [] = a ≡ 0
Linked next a (b ∷ bs) = (a ≡ b) × (b ≢ 0) × Linked next (next b) bs

abbrev pub Fresh : ℕ → List ℕ → Type 0
Fresh a [] = Unit {0}
Fresh a (b ∷ bs) = (a ≢ b) × Fresh a bs

abbrev pub Apart : List ℕ → Type 0
Apart [] = Unit {0}
Apart (b ∷ bs) = Fresh b bs × Apart bs

-- The last address of a chain that begins with `a`.
abbrev pub last_of : ℕ → List ℕ → ℕ
last_of a [] = a
last_of a (b ∷ bs) = last_of b bs

pub last_of-Fresh : (x b : ℕ) (bs : List ℕ) → Fresh x (b ∷ bs) → x ≢ last_of b bs
last_of-Fresh x b [] (ne, tt) = ne
last_of-Fresh x b (c ∷ bs) (ne, fresh) = last_of-Fresh x c bs fresh

pub Fresh-append : (a b : ℕ) (bs : List ℕ) → Fresh a bs → a ≢ b → Fresh a (bs ++ (b ∷ []))
Fresh-append a b [] fresh ne = (ne, tt)
Fresh-append a b (c ∷ bs) (here, fresh) ne = (here, Fresh-append a b bs fresh ne)

pub Apart-append : (b : ℕ) (bs : List ℕ) → Apart bs → Fresh b bs → Apart (bs ++ (b ∷ []))
Apart-append b [] apart fresh = (tt, tt)
Apart-append b (c ∷ bs) (far, apart) (here, fresh) =
    (Fresh-append c b bs far (λ e. here (sym e)), Apart-append b bs apart fresh)

-- A chain is kept when only the link of an address outside of it changes.
pub Linked-outside :
    (next next' : ℕ → ℕ) (item a : ℕ) (bs : List ℕ)
    → ((x : ℕ) → x ≢ item → next' x ≡ next x)
    → Fresh item bs
    → Linked next a bs
    → Linked next' a bs
Linked-outside next next' item a [] same fresh e = e
Linked-outside next next' item a (b ∷ bs) same (ne, fresh) (e, filled, rest) = (
  e,
  filled,
  rw (same b (λ f. ne (sym f))) (Linked-outside next next' item (next b) bs same fresh rest),
)

-- A chain gets one more item when the link of its last one is set to it.
pub Linked-append :
    (next next' : ℕ → ℕ) (item a : ℕ) (bs : List ℕ)
    → item ≢ 0
    → next' (last_of a bs) ≡ item
    → next' item ≡ 0
    → ((x : ℕ) → x ≢ item → x ≢ last_of a bs → next' x ≡ next x)
    → Apart (a ∷ bs)
    → Fresh item (a ∷ bs)
    → Linked next a (a ∷ bs)
    → Linked next' a ((a ∷ bs) ++ (item ∷ []))
Linked-append next next' item a [] filled last end same apart fresh (e, ne, stop) =
    (refl, ne, (last, filled, end))
Linked-append next next' item a (b ∷ bs) filled last end same (far, apart) (new, fresh)
      (e, ne, (step, there, rest)) =
    (
      refl,
      ne,
      rw (same a (λ f. new (sym f)) (last_of-Fresh a b bs far)) (
        step,
        there,
        (Linked-append next next' item b bs filled last end same apart fresh (refl, there, rest)).2,
      ),
    )

pub Linked-end :
    (next : ℕ → ℕ) (a node : ℕ) (bs : List ℕ)
    → Linked next a (bs ++ (node ∷ []))
    → (node ≢ 0) × (next node ≡ 0)
Linked-end next a node [] (e, ne, end) = (ne, end)
Linked-end next a node (b ∷ bs) (e, ne, rest) = Linked-end next (next b) node bs rest

-- The item before the last one is not NULL.
pub Linked-front :
    (next : ℕ → ℕ) (a node b : ℕ) (bs : List ℕ)
    → Linked next a ((b ∷ bs) ++ (node ∷ []))
    → last_of b bs ≢ 0
Linked-front next a node b [] (e, ne, rest) = ne
Linked-front next a node b (c ∷ bs) (e, ne, rest) = Linked-front next (next b) node c bs rest

Fresh-shorten : (a node : ℕ) (bs : List ℕ) → Fresh a (bs ++ (node ∷ [])) → Fresh a bs × (a ≢ node)
Fresh-shorten a node [] (ne, tt) = (tt, ne)
Fresh-shorten a node (b ∷ bs) (ne, fresh) =
    let (short, far) = Fresh-shorten a node bs fresh in ((ne, short), far)

pub Apart-shorten : (node : ℕ) (bs : List ℕ) → Apart (bs ++ (node ∷ [])) → Apart bs × Fresh node bs
Apart-shorten node [] apart = (tt, tt)
Apart-shorten node (b ∷ bs) (fresh, apart) =
    let (short, far) = Fresh-shorten b node bs fresh in
    let (rest, new) = Apart-shorten node bs apart in ((short, rest), (λ e. far (sym e), new))

-- A chain loses its last item when the link of the one before is cleared.
pub Linked-shorten :
    (next next' : ℕ → ℕ) (a node b : ℕ) (bs : List ℕ)
    → next' (last_of b bs) ≡ 0
    → ((x : ℕ) → x ≢ node → x ≢ last_of b bs → next' x ≡ next x)
    → Apart ((b ∷ bs) ++ (node ∷ []))
    → Linked next a ((b ∷ bs) ++ (node ∷ []))
    → Linked next' a (b ∷ bs)
Linked-shorten next next' a node b [] last same apart (e, ne, rest) = (e, ne, last)
Linked-shorten next next' a node b (c ∷ bs) last same (fresh, apart) (e, ne, rest) =
    let (short, far) = Fresh-shorten b node (c ∷ bs) fresh in
    (
      e,
      ne,
      rw (same b far (last_of-Fresh b c bs short))
          (Linked-shorten next next' (next b) node c bs last same apart rest),
    )
