-- ===== src/Tests/Tables.antt =====
-- Runs of the buffer pool, the node registry and the side packets.
use rk_avp.Prelude.{
  ℕ, ◌+◌, ◌≤◌, ◌≡◌, refl, true, false, List, [], ◌∷◌, none, some, String, string_keys, pos, arith,
  filter, any,
}
use rk_avp.Prelude.Maps.{find, contains, emplace, assign, erase}
use rk_avp.Prelude.Names.{member}
use rk_avp.Status.{Status, is_ok}
use rk_avp.Status
use rk_avp.Timestamp.{from_microseconds}
use rk_avp.Packet.{Packet, make}
use rk_avp.Pool.{BufferPool, acquire, end_allocation, wake, waits, allocates}
use rk_avp.Pool.Capacity.{
  Call, acquires, wakes, closes, ends_allocation, releases, call_all, new_usage, call_all_capacity,
  failed_allocation_strands,
}
use rk_avp.Registry.{register, unregister, create}
use rk_avp.Plugins.{Library, PluginManager, load, run_init, unregister_each, unload_all}
use rk_avp.Plugins.Restores.{Request, loads, manage, unload_all_restores}

abbrev calls : List (Call ℕ)
calls =
    acquires
    ∷ acquires
    ∷ acquires
    ∷ ends_allocation Status.ok
    ∷ releases (some 1)
    ∷ wakes
    ∷ closes
    ∷ []

call_all_capacity_example :
    (call_all (new_usage true 64 2) calls).made + (call_all (new_usage true 64 2) calls).allocating
    ≤ 2
call_all_capacity_example = call_all_capacity true 64 2 calls

abbrev full_pool : BufferPool ℕ
full_pool = record {
  has_allocator = true;
  buffer_size = 64;
  capacity = 1;
  available = [];
  allocated = 1;
  closed = false;
}

is_waiting : (acquire full_pool).1 ≡ waits
unfolding acquire
is_waiting = refl

failed_allocation_strands_example :
    (wake (end_allocation full_pool (Status.internal "no memory")) ≡ none)
    × ((acquire (end_allocation full_pool (Status.internal "no memory"))).1 ≡ allocates)
failed_allocation_strands_example =
    failed_allocation_strands full_pool (Status.internal "no memory") is_waiting (omega arith) refl
      refl

abbrev value : ℕ → Packet ℕ
value n = make n (from_microseconds (pos 0))

abbrev model : List (String × Packet ℕ)
model = ("model", value 1) ∷ []

abbrev more : List (String × Packet ℕ)
more = ("model", value 2) ∷ ("labels", value 3) ∷ []

model_found : find "model" model ≡ some (value 1)
unfolding find
model_found = refl

abbrev no_factories : List (String × ℕ)
no_factories = []

abbrev registered : List (String × ℕ)
registered = (register no_factories "Resize" (some 1)).0

nothing_yet : create no_factories "Resize" ≡ none
unfolding create find
nothing_yet = refl

abbrev camera_library : Library ℕ
camera_library = record {
  has_init = true;
  registers = ("Camera", some 7) ∷ ("Sink", some 8) ∷ [];
  succeeds = true;
}

abbrev broken_library : Library ℕ
broken_library = record { has_init = true; registers = ("Encoder", some 9) ∷ []; succeeds = false }

abbrev host_types : List (String × ℕ)
host_types = ("Sink", 1) ∷ []

abbrev requests : List (Request ℕ)
requests =
    loads "camera.so" (some camera_library) ""
    ∷ loads "broken.so" (some broken_library) ""
    ∷ loads "missing.so" none "no such file"
    ∷ []

abbrev managed : PluginManager ℕ
managed = manage (record { registry = host_types; plugins = [] }) requests

camera_registered :
    (create managed.registry "Camera" ≡ some 7)
    × (create managed.registry "Sink" ≡ some 1)
    × (create managed.registry "Encoder" ≡ none)
unfolding manage load run_init unregister_each register unregister create find contains emplace
    assign erase filter member any
camera_registered = (refl, refl, refl)

unload_all_restores_example :
    ((unload_all managed).plugins ≡ [])
    × (create (unload_all managed).registry "Camera" ≡ create host_types "Camera")
unload_all_restores_example = unload_all_restores host_types requests "Camera"
