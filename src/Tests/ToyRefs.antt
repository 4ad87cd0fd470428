-- ===== src/Tests/ToyRefs.antt =====
-- A small instance of `RefLibrary`: a list of names with what they have, and two names that a reference can have.
use amber_store_iroh.Prelude.{
  ℕ, zero, suc, ◌≡◌, refl, String, Bool, true, false, List, [], ◌∷◌, none, some, str_eq, eq_iff,
  if◌then◌else◌, arith,
}
use amber_store_iroh.Prelude.Int.{pos, ◌==ℤ◌}
use amber_store_iroh.Protocol.Error.{Bytes, Result, ok, err, library, not_found}
use amber_store_iroh.Server.World.{Reference, RefRecord, RefLibrary, RefLaws, Config, World}
use amber_store_iroh.Server.Channels.{Surroundings}
use amber_store_iroh.Server.Push.Invariant.{RefsComplete, ParsesBack, Friendly}
use amber_store_iroh.Client.Spec.{Texts}
use amber_store_iroh.Tests.Toy.{toy, in_turn, in_turn-MergesOnly}

abbrev pub find : List (String × Bytes) → String → Result Bytes
find [] name = err not_found
find ((n, raw) ∷ refs) name = if str_eq name n then ok raw else find refs name

abbrev pub remove : List (String × Bytes) → String → List (String × Bytes)
remove [] name = []
remove ((n, raw) ∷ refs) name =
    let rest = remove refs name in if str_eq name n then rest else (n, raw) ∷ rest

abbrev pub simple : String → Bytes → Reference
simple name k = record { name = name; key = k; created_at = pos 0; user = "" }

abbrev pub is_simple : Reference → String → Bool
is_simple r name =
    if str_eq r.name name
    then (if str_eq r.user "" then r.created_at ==ℤ pos 0 else false)
    else false

abbrev pub encode : Reference → Result Bytes
encode r =
    if is_simple r "n"
    then ok (0 ∷ r.key)
    else if is_simple r "remotes/s/n"
    then ok (1 ∷ r.key)
    else err (library 5)

abbrev pub decode : Bytes → Result Reference
decode (zero ∷ k) = ok (simple "n" k)
decode (suc t ∷ k) = ok (simple "remotes/s/n" k)
decode [] = err (library 6)

abbrev pub records : List (String × Bytes) → List RefRecord
records [] = []
records ((n, raw) ∷ refs) = record { name = n; raw = raw } ∷ records refs

abbrev pub toy_refs : RefLibrary
toy_refs = record {
  Refs = List (String × Bytes);
  get = find;
  put = λ refs name raw. (none, (name, raw) ∷ refs);
  delete = λ refs name. (none, remove refs name);
  all = λ refs. ok (records refs);
  validate_name = λ name. none;
  encode = encode;
  decode = decode;
  sprintf = λ f s. f;
  sprintf_number = λ f n. f;
}

ref_of_fields :
    (r : Reference) (name : String)
    → r.name ≡ name
    → r.user ≡ ""
    → r.created_at ≡ pos 0
    → simple name r.key ≡ r
ref_of_fields r name a b c = ground arith

pub toy-RefLaws : RefLaws toy_refs
toy-RefLaws = record {
  put_get = λ refs name raw fine. ground (arith, eq_iff name name);
  put_other = λ refs name other raw d. ground (arith, eq_iff other name);
  put_failed = λ refs name raw e failed. ground arith;
  read_back = λ r raw h. ground (
    arith,
    eq_iff r.name "n",
    eq_iff r.name "remotes/s/n",
    eq_iff r.user "",
    ref_of_fields r "n",
    ref_of_fields r "remotes/s/n",
  );
}

pub toy-ParsesBack : ParsesBack toy
toy-ParsesBack k = refl

abbrev pub around : Surroundings toy toy_refs
around = record { random = ok (5 ∷ []); now = pos 0; events = []; others = λ w. w; merge = in_turn }

pub around-Friendly : Friendly around
around-Friendly = record {
  keeps = λ w k bytes held. held;
  complete = λ w complete. complete;
  merges = in_turn-MergesOnly;
}

abbrev pub config : Config ℕ
config = record {
  on_access = true;
  on_pin = true;
  guard = some (λ calls k. none);
  data_ports = [];
  data_endpoints = none;
}

abbrev pub empty_world : World toy toy_refs
empty_world = record { objects = []; refs = []; pending = []; calls = []; closed = [] }

pub empty_world-RefsComplete : RefsComplete empty_world
empty_world-RefsComplete name raw rec root got decoded parsed = absurd (ground arith)

abbrev pub texts : Texts toy
texts = record {
  cut = λ s sep. (s, "");
  cut_prefix = λ s p. some "n";
  split = λ s sep. [];
  hex_decode = λ s. err (library 7);
  hex_encode = λ b. "hex";
  key_text = λ k. "key";
  lookup_entry = λ st k seg. err not_found;
  sprintf_two = λ f a b. f;
}
