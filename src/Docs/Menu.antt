-- ===== src/Docs/Menu.antt =====
-- docs/menu.js: `makeTree` and `initMenu`, which write the menu of every page.
pub mod Data
pub mod Balanced
pub mod Tests
use packio.Common.{Bool, true, false, Option, none, some, List, [], ◌∷◌, ◌++◌, if◌then◌else◌}
use packio.Docs.Text.{Text, codes}

mutual
  -- An object without `children`, or with them.
  pub data Menu : Type 0 where
    leaf : Menu
    children : Entries → Menu

  -- The texts, the urls and what is below them.
  pub data Entries : Type 0 where
    end : Entries
    entry : Text → Text → Menu → Entries → Entries

unfoldable mutual
  pub make_tree : Text → Menu → Text
  make_tree rel_path leaf = []
  make_tree rel_path (children es) = codes "<ul>" ++ (make_entries rel_path es ++ codes "</ul>")

  -- The `for` loop.
  pub make_entries : Text → Entries → Text
  make_entries rel_path end = []
  make_entries rel_path (entry text url below es) =
      (codes "<li><a href=\""
        ++ (rel_path
            ++ (url
                ++ (codes "\">"
                    ++ (text ++ (codes "</a>" ++ (make_tree rel_path below ++ codes "</li>")))))))
      ++ make_entries rel_path es

abbrev join : List Text → Text
join [] = []
join (t ∷ ts) = t ++ join ts

-- The item with the search field, for a search on the server and for one in the page.
abbrev server_item : Text → Text → Text → Text
server_item rel_path search_page search = join (
    codes
      "<li style=\"float:right\"><div id=\"MSearchBox\" class=\"MSearchBoxInactive\"><div class=\"left\"><form id=\"FSearchBox\" action=\""
    ∷ rel_path
    ∷ search_page
    ∷ codes "\" method=\"get\"><img id=\"MSearchSelect\" src=\""
    ∷ rel_path
    ∷ codes
        "search/mag.png\" alt=\"\"/><input type=\"text\" id=\"MSearchField\" name=\"query\" value=\""
    ∷ search
    ∷ codes
        "\" size=\"20\" accesskey=\"S\" onfocus=\"searchBox.OnSearchFieldFocus(true)\" onblur=\"searchBox.OnSearchFieldFocus(false)\"></form></div><div class=\"right\"></div></div></li>"
    ∷ [])

abbrev page_item : Text → Text → Text
page_item rel_path search = join (
    codes
      "<li style=\"float:right\"><div id=\"MSearchBox\" class=\"MSearchBoxInactive\"><span class=\"left\"><img id=\"MSearchSelect\" src=\""
    ∷ rel_path
    ∷ codes
        "search/mag_sel.png\" onmouseover=\"return searchBox.OnSearchSelectShow()\" onmouseout=\"return searchBox.OnSearchSelectHide()\" alt=\"\"/><input type=\"text\" id=\"MSearchField\" value=\""
    ∷ search
    ∷ codes
        "\" accesskey=\"S\" onfocus=\"searchBox.OnSearchFieldFocus(true)\" onblur=\"searchBox.OnSearchFieldFocus(false)\" onkeyup=\"searchBox.OnSearchFieldChange(event)\"/></span><span class=\"right\"><a id=\"MSearchClose\" href=\"javascript:searchBox.CloseResultsWindow()\"><img id=\"MSearchCloseImg\" border=\"0\" src=\""
    ∷ rel_path
    ∷ codes "search/close.png\" alt=\"\"/></a></span></div></li>"
    ∷ [])

-- What is made of '#main-nav': the markup, the class and the id of its first child, and the item at
-- the end of it.
pub record MainNav : Type 0 where
  pub markup : Text
  pub class_name : Text
  pub id : Text
  pub search_item : Option Text

-- `initMenu`; `smartmenus` is a plugin of jQuery.
unfoldable pub init_menu : Menu → Text → Bool → Bool → Text → Text → MainNav
unfolding make_tree
init_menu menu_data rel_path search_enabled server_side search_page search = record {
  markup = make_tree rel_path menu_data;
  class_name = codes "sm sm-dox";
  id = codes "main-menu";
  search_item =
      if search_enabled
      then some (
          if server_side
          then server_item rel_path search_page search
          else page_item rel_path search)
      else none;
}
