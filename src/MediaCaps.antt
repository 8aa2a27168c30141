-- ===== src/MediaCaps.antt =====
-- include/rkavp/media_caps.hpp, with the `MemoryType` of buffer.hpp.
use rk_avp.Prelude.{
  ℕ, ◌≡◌, refl, sym, Bool, true, false, ◌&&◌, ◌||◌, not, List, [], ◌∷◌, is_empty, String, ℤ, pos,
  ltb_ℤ, eqb_ℤ, ◌==◌, if◌then◌else◌, ◌=?◌, string_keys, arith, eq_iff, eqb_ℤ_iff,
}

pub data MemoryType : Type 0 where
  host dma_buf mpp rknn opencl : MemoryType

pub data MediaKind : Type 0 where
  any_kind encoded_video video audio tensor metadata : MediaKind

-- The enumerators' values, which `==` compares.
abbrev memory_index : MemoryType → ℕ
memory_index host = 0
memory_index dma_buf = 1
memory_index mpp = 2
memory_index rknn = 3
memory_index opencl = 4

abbrev kind_index : MediaKind → ℕ
kind_index any_kind = 0
kind_index encoded_video = 1
kind_index video = 2
kind_index audio = 3
kind_index tensor = 4
kind_index metadata = 5

pub record MediaCaps : Type 0 where
  pub kind : MediaKind
  pub format : String
  pub width : ℤ
  pub height : ℤ
  pub sample_rate : ℤ
  pub channels : ℤ
  pub memory_types : List MemoryType
  pub tensor_shape : List ℤ

abbrev pub any_caps : MediaCaps
any_caps = record {
  kind = any_kind;
  format = "";
  width = pos 0;
  height = pos 0;
  sample_rate = pos 0;
  channels = pos 0;
  memory_types = [];
  tensor_shape = [];
}

abbrev is_any_kind : MediaKind → Bool
is_any_kind any_kind = true
is_any_kind _ = false

unfoldable pub kinds_clash : MediaKind → MediaKind → Bool
kinds_clash a b = not (is_any_kind a) && not (is_any_kind b) && not (kind_index a == kind_index b)

unfoldable pub formats_clash : String → String → Bool
formats_clash a b = not (a =? "") && not (b =? "") && not (a =? b)

-- A dimension that is not positive is not stated.
unfoldable pub sizes_clash : ℤ → ℤ → Bool
sizes_clash a b = ltb_ℤ (pos 0) a && ltb_ℤ (pos 0) b && not (eqb_ℤ a b)

-- `std::find` over a list of memory types.
unfoldable pub has_memory : List MemoryType → MemoryType → Bool
has_memory [] t = false
has_memory (m ∷ ms) t = memory_index m == memory_index t || has_memory ms t

unfoldable pub share_memory : List MemoryType → List MemoryType → Bool
unfolding has_memory
share_memory [] ys = false
share_memory (x ∷ xs) ys = has_memory ys x || share_memory xs ys

unfoldable pub compatible_with : MediaCaps → MediaCaps → Bool
compatible_with a b =
    if kinds_clash a.kind b.kind
    then false
    else if formats_clash a.format b.format
    then false
    else if sizes_clash a.width b.width
    then false
    else if sizes_clash a.height b.height
    then false
    else if sizes_clash a.sample_rate b.sample_rate
    then false
    else if sizes_clash a.channels b.channels
    then false
    else if not (is_empty a.memory_types) && not (is_empty b.memory_types)
    then share_memory a.memory_types b.memory_types
    else true

kinds_clash_comm : (a b : MediaKind) → kinds_clash a b ≡ kinds_clash b a
unfolding kinds_clash
kinds_clash_comm a b = ground arith

formats_clash_comm : (a b : String) → formats_clash a b ≡ formats_clash b a
unfolding formats_clash
formats_clash_comm a b = ground (arith, eq_iff a b, eq_iff b a)

sizes_clash_comm : (a b : ℤ) → sizes_clash a b ≡ sizes_clash b a
unfolding sizes_clash
sizes_clash_comm a b = ground (arith, eqb_ℤ_iff a b, eqb_ℤ_iff b a)

share_memory-nil : (xs : List MemoryType) → share_memory xs [] ≡ false
unfolding share_memory
share_memory-nil [] = refl
share_memory-nil (x ∷ xs) = share_memory-nil xs

share_memory-cons :
    (xs ys : List MemoryType) (y : MemoryType)
    → share_memory xs (y ∷ ys) ≡ (has_memory xs y || share_memory xs ys)
unfolding share_memory
share_memory-cons [] ys y = refl
share_memory-cons (x ∷ xs) ys y = ground (arith, share_memory-cons xs ys y)

share_memory_comm : (xs ys : List MemoryType) → share_memory xs ys ≡ share_memory ys xs
unfolding share_memory
share_memory_comm [] ys = sym (share_memory-nil ys)
share_memory_comm (x ∷ xs) ys = ground (arith, share_memory-cons ys xs x, share_memory_comm xs ys)

-- Which end of an edge is asked makes no difference, and unstated capabilities fit every other.
compatible_with_comm :
    (a b : MediaCaps)
    → (compatible_with a b ≡ compatible_with b a) × (compatible_with any_caps b ≡ true)
unfolding compatible_with
compatible_with_comm a b = (
  ground (
    arith,
    kinds_clash_comm a.kind b.kind,
    formats_clash_comm a.format b.format,
    sizes_clash_comm a.width b.width,
    sizes_clash_comm a.height b.height,
    sizes_clash_comm a.sample_rate b.sample_rate,
    sizes_clash_comm a.channels b.channels,
    share_memory_comm a.memory_types b.memory_types,
  ),
  unstated,
)
  where
    unstated : compatible_with any_caps b ≡ true
    unstated = unfold kinds_clash formats_clash sizes_clash in ground (arith, eq_iff "" "")
