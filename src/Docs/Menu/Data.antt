-- ===== src/Docs/Menu/Data.antt =====
-- docs/menudata.js: the pages of the documentation, as menu.js shows them. What is below an entry has
-- the name of the entry.
use Prim.Native.String.{String}
use packio.Common.{List, [], ◌∷◌}
use packio.Docs.Text.{codes}
use packio.Docs.Menu.{Menu, leaf, children, Entries, end, entry}

abbrev entries_of : List (String × String × Menu) → Entries
entries_of [] = end
entries_of ((text, url, below) ∷ es) = entry (codes text) (codes url) below (entries_of es)

abbrev menu_of : List (String × String × Menu) → Menu
menu_of es = children (entries_of es)

abbrev pub namespace_members_menu : Menu
namespace_members_menu = menu_of (
    ("All", "namespacemembers.html", leaf)
    ∷ ("Functions", "namespacemembers_func.html", leaf)
    ∷ ("Typedefs", "namespacemembers_type.html", leaf)
    ∷ [])

abbrev pub namespaces_menu : Menu
namespaces_menu = menu_of (
    ("Namespace List", "namespaces.html", leaf)
    ∷ ("Namespace Members", "namespacemembers.html", namespace_members_menu)
    ∷ [])

abbrev pub all_menu : Menu
all_menu = menu_of (
    ("a", "functions.html#index_a", leaf)
    ∷ ("c", "functions.html#index_c", leaf)
    ∷ ("d", "functions.html#index_d", leaf)
    ∷ ("e", "functions.html#index_e", leaf)
    ∷ ("f", "functions.html#index_f", leaf)
    ∷ ("g", "functions.html#index_g", leaf)
    ∷ ("h", "functions.html#index_h", leaf)
    ∷ ("i", "functions.html#index_i", leaf)
    ∷ ("k", "functions.html#index_k", leaf)
    ∷ ("m", "functions.html#index_m", leaf)
    ∷ ("n", "functions.html#index_n", leaf)
    ∷ ("o", "functions.html#index_o", leaf)
    ∷ ("p", "functions.html#index_p", leaf)
    ∷ ("r", "functions.html#index_r", leaf)
    ∷ ("s", "functions.html#index_s", leaf)
    ∷ ("z", "functions.html#index_z", leaf)
    ∷ ("~", "functions.html#index__7E", leaf)
    ∷ [])

abbrev pub functions_menu : Menu
functions_menu = menu_of (
    ("a", "functions_func.html#index_a", leaf)
    ∷ ("c", "functions_func.html#index_c", leaf)
    ∷ ("d", "functions_func.html#index_d", leaf)
    ∷ ("g", "functions_func.html#index_g", leaf)
    ∷ ("h", "functions_func.html#index_h", leaf)
    ∷ ("k", "functions_func.html#index_k", leaf)
    ∷ ("o", "functions_func.html#index_o", leaf)
    ∷ ("r", "functions_func.html#index_r", leaf)
    ∷ ("s", "functions_func.html#index_s", leaf)
    ∷ ("~", "functions_func.html#index__7E", leaf)
    ∷ [])

abbrev pub class_members_menu : Menu
class_members_menu = menu_of (
    ("All", "functions.html", all_menu)
    ∷ ("Functions", "functions_func.html", functions_menu)
    ∷ ("Variables", "functions_vars.html", leaf)
    ∷ ("Typedefs", "functions_type.html", leaf)
    ∷ [])

abbrev pub classes_menu : Menu
classes_menu = menu_of (
    ("Class List", "annotated.html", leaf)
    ∷ ("Class Index", "classes.html", leaf)
    ∷ ("Class Members", "functions.html", class_members_menu)
    ∷ [])

abbrev pub files_menu : Menu
files_menu = menu_of (("File List", "files.html", leaf) ∷ [])

abbrev pub menu_data : Menu
menu_data = menu_of (
    ("Main Page", "index.html", leaf)
    ∷ ("Namespaces", "namespaces.html", namespaces_menu)
    ∷ ("Classes", "annotated.html", classes_menu)
    ∷ ("Files", "files.html", files_menu)
    ∷ [])
