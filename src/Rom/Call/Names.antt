-- ===== src/Rom/Call/Names.antt =====
-- The names of the client interface in rom.c, as a table, and that the comparisons of `rom_call` find
-- a name in it.
use Prim.Native.Char.{code}
use Prim.Native.String.{String, [], ◌∷◌}
use prephv.Base.{
  ℕ, ◌+◌, ◌≡◌, refl, arith, Bool, true, false, not, ◌&&◌, ◌||◌, ◌==◌, if◌then◌else◌, List, ◌∙◌,
}
use mathlib.Core.List.{Memᴰ}
use mathlib.Core.Path.{ap}
use prephv.Guest.Memory.{Memory, is_string}
use prephv.Rom.Call.{
  Call, call_of, finddevice, milliseconds, peer, child, parent, exit_or_boot, write, read,
  getproplen, getprop, call_method, claim, instance_to_package, instance_to_path, package_to_path,
  open_device, close, seek, unknown_call,
}

abbrev Names : Type 0
Names = List (String × Call)

-- The services that rom.c has, by the names that IEEE 1275 gives them.
abbrev pub services : Names
services =
    List.◌∷◌ ("finddevice", finddevice)
      (List.◌∷◌ ("milliseconds", milliseconds)
        (List.◌∷◌ ("peer", peer)
          (List.◌∷◌ ("child", child)
            (List.◌∷◌ ("parent", parent)
              (List.◌∷◌ ("exit", exit_or_boot)
                (List.◌∷◌ ("boot", exit_or_boot)
                  (List.◌∷◌ ("write", write)
                    (List.◌∷◌ ("read", read)
                      (List.◌∷◌ ("getproplen", getproplen)
                        (List.◌∷◌ ("getprop", getprop)
                          (List.◌∷◌ ("call-method", call_method)
                            (List.◌∷◌ ("claim", claim)
                              (List.◌∷◌ ("instance-to-package", instance_to_package)
                                (List.◌∷◌ ("instance-to-path", instance_to_path)
                                  (List.◌∷◌ ("package-to-path", package_to_path)
                                    (List.◌∷◌ ("open", open_device)
                                      (List.◌∷◌ ("close", close)
                                        (List.◌∷◌ ("seek", seek) List.[]))))))))))))))))))

-- Two strings without NUL that differ.
unfoldable pub apart : String → String → Bool
apart [] [] = false
apart [] (d ∷ t) = not (0 == code d)
apart (c ∷ s) [] = not (0 == code c)
apart (c ∷ s) (d ∷ t) = not (code c == code d) || apart s t

apart_lem :
    (s t : String) (mem : Memory) (a : ℕ)
    → apart s t ≡ true
    → is_string s mem a ≡ true
    → is_string t mem a ≡ false
unfolding is_string apart
apart_lem [] [] mem a h e = cc
apart_lem [] (d ∷ t) mem a h e = ground arith
apart_lem (c ∷ s) [] mem a h e = ground arith
apart_lem (c ∷ s) (d ∷ t) mem a h e = let next = apart_lem s t mem (a + 1) in ground arith

-- The first name that the string at an address is.
unfoldable pub service_at : Names → Memory → ℕ → Call
service_at List.[] mem a = unknown_call
service_at (List.◌∷◌ (s, c) names) mem a =
    let rest = service_at names mem a in if is_string s mem a then c else rest

all_apart : String → Names → Bool
all_apart s List.[] = true
all_apart s (List.◌∷◌ (t, d) names) = apart t s && all_apart s names

distinct : Names → Bool
unfolding all_apart
distinct List.[] = true
distinct (List.◌∷◌ (s, c) names) = all_apart s names && distinct names

services-distinct : distinct services ≡ true
unfolding distinct all_apart apart
services-distinct = refl

if-or :
    {A : Type 0} (b d : Bool) (x y : A)
    → (if b || d then x else y) ≡ (if b then x else if d then x else y)
if-or true d x y = refl
if-or false d x y = refl

call_of-service_at : (mem : Memory) (a : ℕ) → call_of mem a ≡ service_at services mem a
unfolding call_of service_at
call_of-service_at mem a = rw (if-or (is_string "exit" mem a) (is_string "boot" mem a)) refl

all_apart_lem :
    (s t : String) (c : Call) (names : Names)
    → all_apart s names ≡ true
    → Memᴰ (t, c) names
    → apart t s ≡ true
unfolding all_apart
all_apart_lem s t c List.[] h m = elim m [ ]
all_apart_lem s t c (List.◌∷◌ (u, d) names) h (Memᴰ.head e) =
    let same : t ≡ u = ap (λ r. r.0) e in rw same (ground arith)
all_apart_lem s t c (List.◌∷◌ (u, d) names) h (Memᴰ.tail m) =
    all_apart_lem s t c names (ground arith) m

service_at_lem :
    (s : String) (c : Call) (names : Names) (mem : Memory) (a : ℕ)
    → distinct names ≡ true
    → Memᴰ (s, c) names
    → is_string s mem a ≡ true
    → service_at names mem a ≡ c
unfolding service_at distinct
service_at_lem s c List.[] mem a h m is = elim m [ ]
service_at_lem s c (List.◌∷◌ (t, d) names) mem a h (Memᴰ.head e) is =
    let same : s ≡ t = ap (λ r. r.0) e in
    let call : c ≡ d = ap (λ r. r.1) e in
    let first : is_string t mem a ≡ true = rw (← same) is in rw (first, call) refl
service_at_lem s c (List.◌∷◌ (t, d) names) mem a h (Memᴰ.tail m) is =
    let differs = all_apart_lem t s c names (ground arith) m in
    rw (apart_lem s t mem a differs is) (service_at_lem s c names mem a (ground arith) m is)

unnamed_lem :
    (names : Names) (mem : Memory) (a : ℕ)
    → ((s : String) (c : Call) → Memᴰ (s, c) names → is_string s mem a ≡ false)
    → service_at names mem a ≡ unknown_call
unfolding service_at
unnamed_lem List.[] mem a h = refl
unnamed_lem (List.◌∷◌ (t, d) names) mem a h =
    rw (h t d (Memᴰ.head refl)) (unnamed_lem names mem a (λ s c m. h s c (Memᴰ.tail m)))

-- `rom_call` tells the services apart: a string that is the name of one of them, wherever it
-- stands in memory, gets that service, and one that is no name of a service gets none.
pub call_of_lem :
    (mem : Memory) (a : ℕ)
    → ((s : String) (c : Call)
        → Memᴰ (s, c) services
        → is_string s mem a ≡ true
        → call_of mem a ≡ c)
      × (((s : String) (c : Call) → Memᴰ (s, c) services → is_string s mem a ≡ false)
          → call_of mem a ≡ unknown_call)
call_of_lem mem a = (
  λ s c m is. call_of-service_at mem a ∙ service_at_lem s c services mem a services-distinct m is,
  λ none. call_of-service_at mem a ∙ unnamed_lem services mem a none,
)
