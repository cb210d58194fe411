-- ===== src/Docs/Menu/Balanced.antt =====
-- The tags in the markup of the menu.
use packio.Common.{
  ℕ, zero, suc, Bool, true, false, Option, none, some, [], ◌∷◌, ◌++◌, ◌&&◌, not, ◌≡◌, refl, ap, sym,
  ◌∙◌, arith, if◌then◌else◌, ◌==◌, append_assoc, append-nil,
}
use packio.Docs.Text.{Text, codes}
use packio.Docs.Menu.{Menu, leaf, children, Entries, end, entry, make_tree, make_entries}

-- How many tags are open behind a text, where `d` are open before it; `begun` is that a tag has just
-- begun. A tag that closes with nothing open has none.
abbrev pub open_tags : Bool → ℕ → Text → Option ℕ
open_tags begun d [] = some d
open_tags false d (c ∷ t) = open_tags (c == b'<') d t
open_tags true d (c ∷ t) =
    if c == b'/'
    then elim d [ zero ↦ none | suc outer ↦ open_tags false outer t ]
    else open_tags false (suc d) t

abbrev pub is_plain : Text → Bool
is_plain [] = true
is_plain (c ∷ t) = not (c == b'<') && is_plain t

abbrev mutual
  pub is_plain_menu : Menu → Bool
  is_plain_menu leaf = true
  is_plain_menu (children es) = are_plain es

  pub are_plain : Entries → Bool
  are_plain end = true
  are_plain (entry text url below es) =
      is_plain text && (is_plain url && (is_plain_menu below && are_plain es))

-- A text leads from one number of open elements to another.
abbrev Leads : (ℕ → ℕ) → (ℕ → ℕ) → Text → Type 0
Leads f g x = (d : ℕ) (s : Text) → open_tags false (f d) (x ++ s) ≡ open_tags false (g d) s

Leads-append : (f g h : ℕ → ℕ) (x y : Text) → Leads f g x → Leads g h y → Leads f h (x ++ y)
Leads-append f g h x y p q =
    λ d s. ap (open_tags false (f d)) (append_assoc x y s) ∙ p d (y ++ s) ∙ q d s

is_plain-Leads : (f : ℕ → ℕ) (t : Text) → is_plain t ≡ true → Leads f f t
is_plain-Leads f [] h = λ d s. refl
is_plain-Leads f (c ∷ t) h = λ d s.
    let no_tag : (c == b'<') ≡ false = ground (arith, h) in
    let rest : is_plain t ≡ true = ground (arith, h) in
    ap (λ b. open_tags b (f d) (t ++ s)) no_tag ∙ is_plain-Leads f t rest d s

abbrev up : ℕ → ℕ
up d = suc d

abbrev up_twice : ℕ → ℕ
up_twice d = suc (suc d)

abbrev level : ℕ → ℕ
level d = d

module _ (rel_path : Text) (plain : is_plain rel_path ≡ true) where
  mutual
    unfolding make_tree

    make_tree-Leads : (m : Menu) → is_plain_menu m ≡ true → Leads level level (make_tree rel_path m)
    make_tree-Leads leaf h = λ d s. refl
    make_tree-Leads (children es) h =
        Leads-append level up level (codes "<ul>") (make_entries rel_path es ++ codes "</ul>")
          (λ d s. refl)
          (Leads-append up up level (make_entries rel_path es) (codes "</ul>")
            (λ d s. make_entries-Leads es h (suc d) s) (λ d s. refl))

    make_entries-Leads :
        (es : Entries) → are_plain es ≡ true → Leads level level (make_entries rel_path es)
    make_entries-Leads end h = λ d s. refl
    make_entries-Leads (entry text url below es) plain_all =
        let t : is_plain text ≡ true = ground (arith, plain_all) in
        let u : is_plain url ≡ true = ground (arith, plain_all) in
        let m : is_plain_menu below ≡ true = ground (arith, plain_all) in
        let h : are_plain es ≡ true = ground (arith, plain_all) in
        let tree = make_tree rel_path below ++ codes "</li>" in
        let shown = text ++ (codes "</a>" ++ tree) in
        let linked = url ++ (codes "\">" ++ shown) in
        let item = rel_path ++ linked in
        let tree_up =
          Leads-append up up level (make_tree rel_path below) (codes "</li>")
            (λ d s. make_tree-Leads below m (suc d) s) (λ d s. refl) in
        let shown_up =
          Leads-append up_twice up_twice level text (codes "</a>" ++ tree)
            (is_plain-Leads up_twice text t)
            (Leads-append up_twice up level (codes "</a>") tree (λ d s. refl) tree_up) in
        let linked_up =
          Leads-append up_twice up_twice level url (codes "\">" ++ shown)
            (is_plain-Leads up_twice url u)
            (Leads-append up_twice up_twice level (codes "\">") shown (λ d s. refl) shown_up) in
        let item_up =
          Leads-append up_twice up_twice level rel_path linked
            (is_plain-Leads up_twice rel_path plain) linked_up in
        Leads-append level level level (codes "<li><a href=\"" ++ item) (make_entries rel_path es)
          (Leads-append level up_twice level (codes "<li><a href=\"") item (λ d s. refl) item_up)
          (make_entries-Leads es h)

  -- Where no text and no url has a '<', nor the path to the pages, the tags in the markup of the menu
  -- balance: as many close as open, and none closes where none of them is open.
  pub make_tree-open_tags :
      (m : Menu) (d : ℕ)
      → is_plain_menu m ≡ true
      → open_tags false d (make_tree rel_path m) ≡ some d
  make_tree-open_tags m d h =
      ap (open_tags false d) (sym (append-nil (make_tree rel_path m))) ∙ make_tree-Leads m h d []
