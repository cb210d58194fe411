-- ===== src/Buffers/Escape.antt =====
-- `is_escaped` counts backslashes backwards; it agrees with the parity that the automaton reads
-- off its pending text.
use packio.Common.{
  ℕ, Bool, false, not, [], ◌∷◌, ◌++◌, reverse, ◌≡◌, refl, ◌∙◌, arith, if◌then◌else◌, length, get_or,
  length-reverse, get_or-length-append, reverse-cons_append,
}
use packio.Buffers.{Bytes, count_escapes, is_escaped}
use packio.Buffers.Scan.{escaped}

-- The byte behind a text that is kept in reverse.
pub get_or-reverse : (r rest : Bytes) (c : ℕ) → get_or (reverse r ++ c ∷ rest) (length r) 0 ≡ c
get_or-reverse r rest c = rw (← length-reverse r) (get_or-length-append (reverse r) rest c 0)

count_escapes-escaped :
    (r rest text : Bytes) (e : Bool)
    → text ≡ reverse r ++ rest
    → count_escapes text (length r) e ≡ (if escaped r then not e else e)
unfolding count_escapes
count_escapes-escaped [] rest text e h = refl
count_escapes-escaped (c ∷ r) rest text e h =
    let h' : text ≡ reverse r ++ c ∷ rest = h ∙ reverse-cons_append c r rest in
    let byte : get_or text (length r) 0 ≡ c = rw h' (get_or-reverse r rest c) in
    ground (arith, count_escapes-escaped r (c ∷ rest) text (not e) h')

-- The backward count of escapes in the buffer is the parity of the backslashes right before the
-- byte, whatever stands behind it.
pub is_escaped-escaped : (r rest : Bytes) → is_escaped (reverse r ++ rest) (length r) ≡ escaped r
unfolding is_escaped
is_escaped-escaped r rest =
    ground (arith, count_escapes-escaped r rest (reverse r ++ rest) false refl)
