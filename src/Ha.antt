-- ===== src/Ha.antt =====
-- ssl_ha.c: the registry of those that take part in the high availability of SSL sessions, and the
-- messages between them. The structures have the layout of x86-64 Linux: 4 bytes of message header,
-- 8 bytes of record header with the type in the first and the length in the last four, 2 bytes of
-- preprocessor data header; numbers have their lowest byte first.
pub mod Registry
pub mod Unregister
pub mod Messages
pub mod Ended
pub mod RoundTrip
pub mod Files
use in_free_time.Base.{
  ℕ, zero, suc, ◌+◌, ◌%◌, ◌^◌, Bool, true, false, not, ◌&&◌, ◌||◌, Option, none, some, List, [],
  ◌∷◌, ◌++◌, Bytes, length, ltb, ◌==◌, if◌then◌else◌, set,
}

-- `SSLHAFuncsNode`; of its functions, `deletes` is whether `deletion` is not null.
pub record Node : Type 0 where
  pub id : ℕ
  pub mask : ℕ
  pub preproc_id : ℕ
  pub subcode : ℕ
  pub size : ℕ
  pub deletes : Bool
  pub produced : ℕ
  pub consumed : ℕ
  pub deleted : ℕ

-- `ssl_ha_funcs` up to `n_ssl_ha_funcs`
abbrev pub Slots : Type 0
Slots = List (Option Node)

abbrev pub max_ssl_ha_funcs : ℕ
max_ssl_ha_funcs = 8

-- Does the node have this identifier and subcode?
unfoldable pub answers : ℕ → ℕ → Option Node → Bool
answers p s none = false
answers p s (some node) = p == node.preproc_id && s == node.subcode

-- The first slot that answers; the search counts from `i`.
unfoldable pub find_from : ℕ → ℕ → ℕ → Slots → Option (ℕ × Node)
find_from i p s [] = none
find_from i p s (none ∷ slots) = find_from (i + 1) p s slots
find_from i p s (some node ∷ slots) =
    if p == node.preproc_id && s == node.subcode
    then some (i, node)
    else find_from (i + 1) p s slots

-- The first empty slot, or the one behind the last
unfoldable pub free_slot : Slots → ℕ
free_slot [] = 0
free_slot (none ∷ slots) = 0
free_slot (some node ∷ slots) = suc (free_slot slots)

-- What `RegisterSSLHAFuncs` is given.
pub record Registration : Type 0 where
  pub preproc_id : ℕ
  pub subcode : ℕ
  pub size : ℕ
  pub produces : Bool
  pub consumes : Bool
  pub deletes : Bool

unfoldable pub new_node : ℕ → Registration → Node
new_node idx r = record {
  id = idx;
  mask = 2 ^ idx % 2 ^ 16;
  preproc_id = r.preproc_id % 2 ^ 8;
  subcode = r.subcode;
  size = r.size;
  deletes = r.deletes;
  produced = 0;
  consumed = 0;
  deleted = 0;
}

-- A write to a slot, or behind the last one.
unfoldable pub put_slot : Slots → ℕ → Node → Slots
put_slot [] idx node = some node ∷ []
put_slot (slot ∷ slots) zero node = some node ∷ slots
put_slot (slot ∷ slots) (suc idx) node = slot ∷ put_slot slots idx node

-- `RegisterSSLHAFuncs`: the index and the slots; `none` is a fatal message. `allocates` is whether
-- `calloc` gives memory.
unfoldable pub register_ssl_ha_funcs : Bool → Registration → Slots → Option (ℕ × Slots)
register_ssl_ha_funcs allocates r slots =
    if not r.produces || not r.consumes || ltb 255 r.preproc_id
    then none
    else elim (find_from 0 r.preproc_id r.subcode slots) [
      | some found ↦ none
      | none ↦
          let idx = free_slot slots in
          if idx == max_ssl_ha_funcs || not allocates
          then none
          else some (idx, put_slot slots idx (new_node idx r))
    ]

-- `UnregisterSSLHAFuncs`: the first slot that answers is emptied; if it is the last one, it goes.
unfoldable pub unregister_ssl_ha_funcs : ℕ → ℕ → Slots → Slots
unregister_ssl_ha_funcs p s [] = []
unregister_ssl_ha_funcs p s (slot ∷ []) = if answers p s slot then [] else slot ∷ []
unregister_ssl_ha_funcs p s (slot ∷ next ∷ slots) =
    if answers p s slot
    then none ∷ next ∷ slots
    else slot ∷ unregister_ssl_ha_funcs p s (next ∷ slots)

-- The loop of `SSLCleanHA`; the count of slots stays.
unfoldable pub ssl_clean_ha : Slots → Slots
ssl_clean_ha [] = []
ssl_clean_ha (slot ∷ slots) = none ∷ ssl_clean_ha slots
