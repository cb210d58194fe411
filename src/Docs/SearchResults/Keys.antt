-- ===== src/Docs/SearchResults/Keys.antt =====
-- A key that is held down: one keydown, any number of keypress events, one keyup.
use packio.Common.{
  ℕ, zero, suc, Bool, true, false, not, List, [], ◌∷◌, ◌++◌, replicate, ◌≡◌, ◌≢◌, refl, ap, ap₂,
  ◌∙◌, arith, ◌==◌,
}
use packio.Docs.SearchResults.Nav.{
  KeyType, keydown, keypress, keyup, KeyEvent, KeyState, process_keys,
}

-- Which of some events are handled.
unfoldable pub run : KeyState → List KeyEvent → List Bool
unfolding process_keys
run k [] = []
run k (e ∷ es) = let (k', go) = process_keys k e in go ∷ run k' es

abbrev pub press : KeyType → ℕ → KeyEvent
press t c = record { type = t; key_code = c }

abbrev down_on : ℕ → KeyState
down_on c = record { last_key = c; repeat_on = true }

repeats :
    (c code : ℕ) (n : ℕ)
    → (c == 0) ≡ false
    → run (down_on c) (replicate n (press keypress code) ++ press keyup code ∷ [])
      ≡ replicate n true ++ false ∷ []
unfolding run
repeats c code zero h = refl
repeats c code (suc n) h = ap₂ (λ b l. b ∷ l) (ap not h) (repeats c code n h)

-- Of a key that is held down, whatever the keys did before, the keydown is handled, the first
-- keypress is not, each later one is, and the keyup is not.
pub run_held :
    (k : KeyState) (c code n : ℕ)
    → c ≢ 0
    → run k (
        press keydown c
        ∷ press keypress code
        ∷ (replicate n (press keypress code) ++ press keyup code ∷ []))
      ≡ true ∷ false ∷ (replicate n true ++ false ∷ [])
unfolding run
run_held k c code n h =
    let z : (c == 0) ≡ false = ground (arith, h) in
    ap₂ (λ b l. b ∷ false ∷ l) (ap not z)
      (ap
          (λ b.
            run (record { last_key = c; repeat_on = b })
              (replicate n (press keypress code) ++ press keyup code ∷ []))
          (ap not z)
        ∙ repeats c code n z)
