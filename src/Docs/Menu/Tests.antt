-- ===== src/Docs/Menu/Tests.antt =====
-- The menu of a page in a directory of its own.
use packio.Common.{false, some, ◌≡◌, refl}
use packio.Docs.Text.{codes}
use packio.Docs.Menu.{make_tree}
use packio.Docs.Menu.Data.{menu_data, files_menu}
use packio.Docs.Menu.Balanced.{open_tags, make_tree-open_tags}

files :
    make_tree (codes "../") files_menu
    ≡ codes "<ul><li><a href=\"../files.html\">File List</a></li></ul>"
unfolding make_tree
files = refl

make_tree-open_tags_example : open_tags false 0 (make_tree (codes "../") menu_data) ≡ some 0
make_tree-open_tags_example = make_tree-open_tags (codes "../") refl menu_data 0 refl
