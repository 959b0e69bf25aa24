-- ===== src/Tests/Package.antt =====
-- A package of two modules.
use blueboat.Prelude.{
  ℕ, Bytes, codes, ◌&&◌, List, [], ◌∷◌, Option, none, some, eqb, All, ◌≡◌, refl, if◌then◌else◌,
  split_at,
}
use blueboat.Prelude.Table.{Table, lookup, insert}
use blueboat.Prelude.Utf8.{is_utf8}
use blueboat.Package.{
  VfsNode, internal, leaf, no_entries, entry, child, put, insert_segs, trim, load, node_at,
  split_path, resolve_abs, follow, transform_rel_path, try_suffixes, normalize_path,
}
use blueboat.Package.Archive.{file_in, eq_segs, is_free, insert_segs-file_in}
use blueboat.Package.Paths.{IsInside, transform_rel_path-IsInside}
use blueboat.Package.Modules.{
  Outcome, finished, LoadState, load_loop, load_module_with_dependencies, visit, load_single_module,
  module_resolve_callback,
}
use blueboat.Package.Modules.Closed.{IsResolved, load_module_with_dependencies-IsResolved}
use blueboat.Package.Modules.Total.{load_total}

abbrev foo_text : Bytes
foo_text = codes "export{}"

-- The tree of `index.js` and `foo.js`.
abbrev root : VfsNode
root = internal (
    entry (codes "index.js") (leaf (codes "import"))
      (entry (codes "foo.js") (leaf foo_text) no_entries))

archive_load :
    load ((codes "./pkg/index.js", codes "import") ∷ (codes "./pkg/foo.js", foo_text) ∷ [])
    ≡ some root
unfolding load insert_segs trim split_path split_at child put eqb
archive_load = refl

abbrev root_with_b : VfsNode
root_with_b = internal (
    entry (codes "index.js") (leaf (codes "import"))
      (entry (codes "foo.js") (leaf foo_text) (entry (codes "b") (leaf (codes "x")) no_entries)))

insert_segs-file_in_example : file_in (codes "b" ∷ []) root_with_b ≡ (
    if eq_segs (codes "b" ∷ []) (codes "b" ∷ []) && is_free (node_at (codes "b" ∷ []) root)
    then some (codes "x")
    else file_in (codes "b" ∷ []) root)
unfolding insert_segs child put eqb
insert_segs-file_in_example =
    insert_segs-file_in (codes "b" ∷ []) (codes "x") root root_with_b (codes "b" ∷ []) refl

foo_normalized : normalize_path root (codes "./foo") ≡ some (codes "foo.js")
unfolding normalize_path try_suffixes resolve_abs split_path split_at node_at child eqb
foo_normalized = refl

index-IsInside : All IsInside (split_path (codes "lib/index.js"))
unfolding split_path split_at eqb
index-IsInside = (refl, (refl, tt))

transform_rel_path-IsInside_example :
    All IsInside (split_path (transform_rel_path (codes "lib/index.js") (codes "../../../x")))
transform_rel_path-IsInside_example =
    transform_rel_path-IsInside (codes "lib/index.js") (codes "../../../x") index-IsInside

-- A compiler whose modules are their texts, and imports that the text of `index.js` makes.
abbrev compile : Bytes → Bytes → ℕ → Option Bytes
compile text path id = some text

unfoldable requests : Bytes → List Bytes
requests m = if eqb m (codes "import") then codes "./foo" ∷ [] else []

abbrev modules : Table Bytes
modules = (codes "index.js", codes "import") ∷ (codes "foo.js", foo_text) ∷ []

modules_loaded :
    load_module_with_dependencies compile requests 3 root (codes "index.js")
    ≡ some (finished (modules, codes "import"))
unfolding load_module_with_dependencies load_loop visit load_single_module requests normalize_path
    try_suffixes resolve_abs split_path split_at node_at child eqb transform_rel_path follow lookup
    insert is_utf8
modules_loaded = refl

index_normal : normalize_path root (codes "index.js") ≡ some (codes "index.js")
unfolding normalize_path try_suffixes resolve_abs split_path split_at node_at child eqb
index_normal = refl

index_there : lookup (codes "index.js") modules ≡ some (codes "import")
unfolding lookup eqb
index_there = refl

load_module_with_dependencies-IsResolved_example :
    All (IsResolved root modules (codes "index.js")) (requests (codes "import"))
load_module_with_dependencies-IsResolved_example =
    load_module_with_dependencies-IsResolved compile requests 3 root (codes "index.js") modules
      (codes "import") modules_loaded (codes "index.js") (codes "import") index_normal index_there

load_total_example :
    (n : ℕ) × (r : Outcome (Table Bytes × Bytes)) × (load_module_with_dependencies compile requests
        n root
        (codes "index.js")
      ≡ some r)
load_total_example = load_total compile requests root (codes "index.js")

abbrev before_foo : LoadState Bytes
before_foo = record { modules = (codes "index.js", codes "import") ∷ []; queue = []; script_id = 3 }

abbrev after_foo : LoadState Bytes
after_foo = record { modules = modules; queue = []; script_id = 4 }

foo_normalized_from_index :
    normalize_path root (transform_rel_path (codes "index.js") (codes "./foo"))
    ≡ some (codes "foo.js")
unfolding normalize_path try_suffixes resolve_abs split_path split_at node_at child eqb
    transform_rel_path follow
foo_normalized_from_index = refl

foo_visited :
    visit compile requests root (codes "index.js", codes "./foo") before_foo ≡ finished after_foo
unfolding visit load_single_module requests normalize_path try_suffixes resolve_abs split_path
    split_at node_at child eqb transform_rel_path follow lookup insert is_utf8
foo_visited = refl

-- The import of `foo.js` as `./foo`, made once, is not found.
foo_not_found : module_resolve_callback modules (codes "index.js") (codes "./foo") ≡ none
unfolding module_resolve_callback transform_rel_path follow split_path split_at lookup eqb
foo_not_found = refl
