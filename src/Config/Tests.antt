-- ===== src/Config/Tests.antt =====
-- Tests of Config, with values of JSON as trees.
use Prim.Native.String.{String}
use text.Mathlib.Text.{◌==◌ as str_eq}
use natbuster.Prelude.{
  ℕ, zero, suc, ◌≡◌, refl, ap, inl, Bool, true, false, Option, none, some, List, [], ◌∷◌, length,
  arith, if◌then◌else◌,
}
use natbuster.Proto.Keys.{PortSettings, User}
use natbuster.Proto.Sample.{load, number_keys}
use natbuster.Endpoint.Router
use natbuster.Config.Json.{Json, JsonLaws, ℤ, pos, negsuc, codes, success}
use natbuster.Config.Users.{store_user}
use natbuster.Config.Profile.{
  Host, ClientC2ServerSettings, ClientSettings, Texts, store_client, parse_client,
}
use natbuster.Config.Thrown.{parse_user-denied}
use natbuster.Config.RoundTrip.{parse_user-store_user}
use natbuster.Config.Reload.{parse_client-store_client}

mutual
  data Tree : Type 0 where
    nothing : Tree
    flag : Bool → Tree
    integer : ℤ → Tree
    string : List ℕ → Tree
    arr : Trees → Tree
    obj : Members → Tree

  data Trees : Type 0 where
    nil : Trees
    cons : Tree → Trees → Trees

  data Members : Type 0 where
    end : Members
    entry : String → Tree → Members → Members

abbrev is_empty : Tree → Bool
is_empty nothing = true
is_empty t = false

abbrev has : Members → String → Bool
has end j = false
has (entry k w m) j = if str_eq k j then true else has m j

abbrev find : Members → String → Tree
find end j = nothing
find (entry k w m) j = if str_eq k j then w else find m j

abbrev tree_member : Tree → String → Option Bool
tree_member nothing k = some false
tree_member (obj m) k = some (has m k)
tree_member t k = none

abbrev tree_get : Tree → String → Tree
tree_get (obj m) k = find m k
tree_get t k = nothing

abbrev nth : Trees → ℕ → Tree
nth nil i = nothing
nth (cons t ts) zero = t
nth (cons t ts) (suc i) = nth ts i

abbrev tree_at : Tree → ℕ → Option Tree
tree_at (arr ts) i = some (nth ts i)
tree_at nothing i = some nothing
tree_at t i = none

abbrev count : Trees → ℕ
count nil = 0
count (cons t ts) = suc (count ts)

abbrev tree_size : Tree → ℕ
tree_size (arr ts) = count ts
tree_size t = 0

abbrev tree_put : Tree → String → Tree → Tree
tree_put (obj m) k w = obj (entry k w m)
tree_put t k w = obj (entry k w end)

abbrev from_list : List Tree → Trees
from_list [] = nil
from_list (t ∷ ts) = cons t (from_list ts)

abbrev is_arr : Tree → Bool
is_arr (arr ts) = true
is_arr t = false

abbrev is_obj : Tree → Bool
is_obj (obj m) = true
is_obj t = false

abbrev is_flag : Tree → Bool
is_flag (flag b) = true
is_flag t = false

abbrev is_integer : Tree → Bool
is_integer (integer z) = true
is_integer t = false

abbrev is_str : Tree → Bool
is_str (string s) = true
is_str t = false

abbrev to_flag : Tree → Bool
to_flag (flag b) = b
to_flag t = false

abbrev to_str : Tree → List ℕ
to_str (string s) = s
to_str t = []

abbrev natural : ℤ → Option ℕ
natural (pos n) = some n
natural (negsuc n) = none

abbrev to_uint64 : Tree → Option ℕ
to_uint64 (integer z) = natural z
to_uint64 (flag true) = some 1
to_uint64 (flag false) = some 0
to_uint64 nothing = some 0
to_uint64 t = none

abbrev to_int : Tree → Option ℤ
to_int (integer z) = some z
to_int t = none

abbrev trees : Json
trees = record {
  Value = Tree;
  null = nothing;
  empty = is_empty;
  is_member = tree_member;
  get = tree_get;
  at_index = tree_at;
  size = tree_size;
  is_array = is_arr;
  is_object = is_obj;
  is_bool = is_flag;
  is_integral = is_integer;
  is_string = is_str;
  as_bool = to_flag;
  as_string = to_str;
  as_uint64 = to_uint64;
  as_int = to_int;
  put = tree_put;
  of_bool = flag;
  of_int = integer;
  of_string = string;
  array = λ l. arr (from_list l);
}

member_put :
    (v w : Tree) (k j : String) (b : Bool)
    → tree_member v j ≡ some b
    → tree_member (tree_put v k w) j ≡ some (if str_eq k j then true else b)
member_put nothing w k j b h = ground (arith, h)
member_put (obj m) w k j b h = ground (arith, h)
member_put (flag c) w k j b h = cc
member_put (integer z) w k j b h = cc
member_put (string s) w k j b h = cc
member_put (arr ts) w k j b h = cc

get_put :
    (v w : Tree) (k j : String) (b : Bool)
    → tree_member v j ≡ some b
    → tree_get (tree_put v k w) j ≡ (if str_eq k j then w else tree_get v j)
get_put nothing w k j b h = refl
get_put (obj m) w k j b h = refl
get_put (flag c) w k j b h = cc
get_put (integer z) w k j b h = cc
get_put (string s) w k j b h = cc
get_put (arr ts) w k j b h = cc

string_put : (v w : Tree) (k : String) → is_str (tree_put v k w) ≡ false
string_put nothing w k = refl
string_put (obj m) w k = refl
string_put (flag c) w k = refl
string_put (integer z) w k = refl
string_put (string s) w k = refl
string_put (arr ts) w k = refl

at_member : (v : Tree) (k : String) (i : ℕ) → tree_member v k ≡ some true → tree_at v i ≡ none
at_member nothing k i h = cc
at_member (obj m) k i h = refl
at_member (flag c) k i h = refl
at_member (integer z) k i h = refl
at_member (string s) k i h = refl
at_member (arr ts) k i h = cc

count_list : (l : List Tree) → count (from_list l) ≡ length l
count_list [] = refl
count_list (t ∷ ts) = ap suc (count_list ts)

tree_laws : JsonLaws trees
tree_laws = record {
  empty-null = refl;
  member-null = λ k. refl;
  member-put = member_put;
  get-put = get_put;
  string-put = string_put;
  array-array = λ l. refl;
  size-array = count_list;
  at-member = at_member;
  bool-of = λ b. (refl, refl);
  string-of = λ s. (refl, refl);
  int-of = λ z. (refl, refl);
  uint64-of = λ n h. refl;
}

abbrev number_texts : Texts number_keys
number_texts = record { export_private = λ k. some (k ∷ []); load_private = load; stoi = λ s. none }

abbrev web : PortSettings
web = record {
  dir_pull = false;
  dir_push = true;
  proto_tcp = true;
  proto_udp = false;
  port_min = 80;
  port_max = 80;
}

abbrev plain_user : User number_keys
plain_user = record { name = codes "eve"; key = some 7; ports = [] }

abbrev home : Host
home = record { host_name = codes "home"; port = 5987 }

abbrev home_server : ClientC2ServerSettings number_keys
home_server = record {
  host = home;
  identity = [];
  auto_reconnect = true;
  reconnect_interval = pos 30;
}

abbrev client : ClientSettings number_keys
client = record { name = codes "pc"; prkey = some 5; c2_server = home_server; ip_servers = [] }

parse_user-denied_example :
    (tree_size (tree_get (store_user trees number_keys plain_user) "ports") ≡ 0)
    × (plain_user.ports ≡ [])
    × (Router.on_pipe plain_user.ports (80 ∷ 0 ∷ []) ≡ none)
parse_user-denied_example =
    parse_user-denied trees tree_laws number_keys (store_user trees number_keys plain_user)
      plain_user (80 ∷ 0 ∷ [])
      (parse_user-store_user trees tree_laws number_keys plain_user 7 refl refl)

parse_client-store_client_example :
    parse_client trees number_keys number_texts (store_client trees number_keys number_texts client)
    ≡ success client
parse_client-store_client_example =
    parse_client-store_client trees tree_laws number_keys number_texts client 5 refl refl refl
      (inl (refl, refl))
