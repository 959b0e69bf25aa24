-- ===== src/Package/Modules.antt =====
-- src/package.rs: `load_module_with_dependencies` and `module_resolve_callback`. The V8 engine is two
-- parameters: `compile`, from a text, its name and its script id to a module, and `requests`, the
-- specifiers that a module imports. Instantiating the modules is not modelled.
pub mod Round
pub mod Closed
pub mod Total
pub mod Alias
use blueboat.Prelude.{
  ℕ, zero, suc, ◌+◌, ◌%◌, ◌^◌, Bytes, codes, Bool, true, false, List, [], ◌∷◌, Option, none, some,
  if◌then◌else◌,
}
use blueboat.Prelude.Table.{Table, lookup, insert}
use blueboat.Prelude.Utf8.{is_utf8}
use blueboat.Package.{VfsNode, resolve_abs, transform_rel_path, normalize_path}

-- How a step ends: a value, the early return of `None` by `?`, or a panic.
pub data Outcome {ℓ} (A : Type ℓ) : Type ℓ where
  finished : A → Outcome A
  gives_none : Outcome A
  panics : Outcome A

abbrev or_none {ℓ} : {A : Type ℓ} → Option A → Outcome A
or_none none = gives_none
or_none (some a) = finished a

abbrev pub or_panic {ℓ} : {A : Type ℓ} → Option A → Outcome A
or_panic none = panics
or_panic (some a) = finished a

abbrev pub after {ℓ κ} : {A : Type ℓ} {B : Type κ} → Outcome A → (A → Outcome B) → Outcome B
after (finished a) f = f a
after gives_none f = gives_none
after panics f = panics

-- The locals of the loop: the map, the work list with its top first, and the next script id.
pub record LoadState (M : Type 0) : Type 0 where
  pub modules : Table M
  pub queue : List (Bytes × Bytes)
  pub script_id : ℕ

abbrev pub push_requests : Bytes → List Bytes → List (Bytes × Bytes) → List (Bytes × Bytes)
push_requests path [] q = q
push_requests path (spec ∷ specs) q = push_requests path specs ((path, spec) ∷ q)

module _ {M : Type 0} (compile : Bytes → Bytes → ℕ → Option M) (requests : M → List Bytes) where
  abbrev compile_text : Bytes → ℕ → Bytes → Outcome M
  compile_text abs_path script_id text =
      if is_utf8 text then or_none (compile text abs_path script_id) else panics

  unfoldable pub load_single_module : VfsNode → Bytes → ℕ → Outcome M
  load_single_module root abs_path script_id =
      after (or_panic (resolve_abs root abs_path)) (compile_text abs_path script_id)

  -- The module is new: it gets the next script id, an `i32`, and its requests are pushed.
  abbrev pub loaded : Bytes → LoadState M → M → LoadState M
  loaded np st m = record {
    modules = insert np m st.modules;
    queue = push_requests np (requests m) st.queue;
    script_id = (st.script_id + 1) % 2 ^ 32;
  }

  abbrev pub aliased : Bytes → LoadState M → M → LoadState M
  aliased path st m = record {
    modules = insert path m st.modules;
    queue = st.queue;
    script_id = st.script_id;
  }

  abbrev pub enter : VfsNode → Bytes → Bytes → LoadState M → Option M → Outcome (LoadState M)
  enter root path np st (some x) = finished (aliased path st x)
  enter root path np st none =
      after (load_single_module root np st.script_id) (λ m. finished (loaded np st m))

  -- One round of the loop, for an entry that has been popped.
  unfoldable pub visit : VfsNode → Bytes × Bytes → LoadState M → Outcome (LoadState M)
  visit root e st =
      let path = transform_rel_path e.0 e.1 in
      after (or_panic (normalize_path root path))
        (λ np. enter root path np st (lookup np st.modules))

  abbrev pub continue_with :
      (LoadState M → Option (Outcome (Table M)))
      → Outcome (LoadState M)
      → Option (Outcome (Table M))
  continue_with go (finished st) = go st
  continue_with go gives_none = some gives_none
  continue_with go panics = some panics

  abbrev pub next_entry :
      VfsNode
      → (LoadState M → Option (Outcome (Table M)))
      → LoadState M
      → List (Bytes × Bytes)
      → Option (Outcome (Table M))
  next_entry root go st [] = some (finished st.modules)
  next_entry root go st (e ∷ q) =
      continue_with go
        (visit root e (record { modules = st.modules; queue = q; script_id = st.script_id }))

  -- The loop; `none` when the fuel is not enough.
  unfoldable pub load_loop : ℕ → VfsNode → LoadState M → Option (Outcome (Table M))
  load_loop zero root st = none
  load_loop (suc n) root st = next_entry root (λ st'. load_loop n root st') st st.queue

  abbrev pub start_of : Bytes → LoadState M
  start_of index_path = record { modules = []; queue = (codes "?", index_path) ∷ []; script_id = 2 }

  abbrev pub entry_module : Bytes → Table M → Outcome (Table M × M)
  entry_module index_path m = after (or_panic (lookup index_path m)) (λ init. finished (m, init))

  abbrev pub entered_at : Bytes → Option (Outcome (Table M)) → Option (Outcome (Table M × M))
  entered_at index_path none = none
  entered_at index_path (some r) = some (after r (entry_module index_path))

  abbrev pub load_from : ℕ → VfsNode → Option Bytes → Option (Outcome (Table M × M))
  load_from n root none = some panics
  load_from n root (some index_path) =
      entered_at index_path (load_loop n root (start_of index_path))

  -- Up to the instantiation: the map of the modules and the entry.
  unfoldable pub load_module_with_dependencies :
      ℕ → VfsNode → Bytes → Option (Outcome (Table M × M))
  load_module_with_dependencies n root index_path =
      load_from n root (normalize_path root index_path)

-- `module_resolve_callback`, from the path of the referrer; `none` is the panic.
unfoldable pub module_resolve_callback {ℓ} : {M : Type ℓ} → Table M → Bytes → Bytes → Option M
module_resolve_callback modules referrer_path specifier =
    lookup (transform_rel_path referrer_path specifier) modules
