-- ===== src/Docs/SearchData.antt =====
-- docs/search/searchdata.js: the sections of the search index. The objects have the keys 0 to 7, in
-- order, and are lists here.
use packio.Common.{List, [], ◌∷◌}
use packio.Docs.Text.{Text, codes}

abbrev pub index_sections_with_content : List Text
index_sections_with_content =
    codes "acdefghikmnoprstz~"
    ∷ codes "acdinrs"
    ∷ codes "p"
    ∷ codes "acdhmnpst"
    ∷ codes "acdghkmors~"
    ∷ codes "kz"
    ∷ codes "acdefimnprs"
    ∷ codes "h"
    ∷ []

abbrev pub index_section_names : List Text
index_section_names =
    codes "all"
    ∷ codes "classes"
    ∷ codes "namespaces"
    ∷ codes "files"
    ∷ codes "functions"
    ∷ codes "variables"
    ∷ codes "typedefs"
    ∷ codes "pages"
    ∷ []

abbrev pub index_section_labels : List Text
index_section_labels =
    codes "All"
    ∷ codes "Classes"
    ∷ codes "Namespaces"
    ∷ codes "Files"
    ∷ codes "Functions"
    ∷ codes "Variables"
    ∷ codes "Typedefs"
    ∷ codes "Pages"
    ∷ []
