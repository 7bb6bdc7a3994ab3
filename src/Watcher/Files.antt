-- ===== src/Watcher/Files.antt =====
-- internal/watcher/watcher.go: the files of a server that the watcher reads. The functions of Go's
-- path/filepath are those for Unix; the files and encoding/json are parameters.
use sidero_proxy.Base.{
  ℕ, ◌≡◌, refl, Bool, true, false, List, [], ◌∷◌, ◌++◌, ◌||◌, ◌==◌, if◌then◌else◌, Result, ok, err,
  Bytes, codes, bytes_eq, Unicode, trim_space,
}
use sidero_proxy.Config.{is_nil}
use sidero_proxy.Nft.{Error}

pub record BannedIpEntry : Type 0 where
  pub ip : Bytes
  pub source : Bytes
  pub reason : Bytes
  pub created : Bytes
  pub expires : Bytes

pub record BannedPlayerEntry : Type 0 where
  pub name : Bytes
  pub uuid : Bytes
  pub source : Bytes
  pub reason : Bytes
  pub created : Bytes
  pub expires : Bytes

-- An error of package os, or one that the program has wrapped: `os.IsNotExist` looks for the first.
pub data FileError : Type 0 where
  not_exist : Error → FileError
  other_error : Error → FileError

abbrev pub is_not_exist : FileError → Bool
is_not_exist (not_exist e) = true
is_not_exist (other_error e) = false

abbrev pub message : FileError → Error
message (not_exist e) = e
message (other_error e) = e

-- What the program uses of encoding/json for the two files.
pub record BansJson : Type 0 where
  pub unmarshal_ips : Bytes → Result Error (List BannedIpEntry)
  pub unmarshal_players : Bytes → Result Error (List BannedPlayerEntry)

abbrev decoded : {A : Type 0} → Bytes → Result Error A → Result FileError A
decoded path (ok a) = ok a
decoded path (err e) = err (other_error (codes "decode " ++ (path ++ (codes ": " ++ e))))

module _ {A : Type 0} (u : Unicode) (unmarshal : Bytes → Result Error (List A)) where
  -- What is made of the result of `os.ReadFile`.
  unfoldable pub read_entries : Bytes → Result FileError Bytes → Result FileError (List A)
  unfolding trim_space
  read_entries path (err e) = err e
  read_entries path (ok data_read) =
      if is_nil (trim_space u data_read) then ok [] else decoded path (unmarshal data_read)

abbrev pub FileReader : Type 0
FileReader = Bytes → Result FileError Bytes

unfoldable pub read_banned_ips :
    Unicode → BansJson → FileReader → Bytes → Result FileError (List BannedIpEntry)
read_banned_ips u json read_file path =
    read_entries u (BansJson.unmarshal_ips json) path (read_file path)

unfoldable pub read_banned_players :
    Unicode → BansJson → FileReader → Bytes → Result FileError (List BannedPlayerEntry)
read_banned_players u json read_file path =
    read_entries u (BansJson.unmarshal_players json) path (read_file path)

abbrev slash : ℕ
slash = 47

abbrev in_front : ℕ → List Bytes → List Bytes
in_front b [] = (b ∷ []) ∷ []
in_front b (p ∷ ps) = (b ∷ p) ∷ ps

-- The parts of a path between the slashes.
unfoldable split_slash : Bytes → List Bytes
split_slash [] = [] ∷ []
split_slash (b ∷ s) = let rest = split_slash s in if b == slash then [] ∷ rest else in_front b rest

unfoldable join_slash : List Bytes → Bytes
join_slash [] = []
join_slash (p ∷ []) = p
join_slash (p ∷ q ∷ ps) = p ++ slash ∷ join_slash (q ∷ ps)

-- A `..` behind the parts so far, the last of them first.
abbrev go_up : Bool → List Bytes → List Bytes
go_up rooted [] = if rooted then [] else codes ".." ∷ []
go_up rooted (p ∷ ps) = if bytes_eq p (codes "..") then codes ".." ∷ p ∷ ps else ps

abbrev add_part : Bool → List Bytes → Bytes → List Bytes
add_part rooted ps p =
    if is_nil p || bytes_eq p (codes ".")
    then ps
    else if bytes_eq p (codes "..")
    then go_up rooted ps
    else p ∷ ps

abbrev clean_parts : Bool → List Bytes → List Bytes → List Bytes
clean_parts rooted ps [] = ps
clean_parts rooted ps (q ∷ qs) = clean_parts rooted (add_part rooted ps q) qs

abbrev reverse_onto : List Bytes → List Bytes → List Bytes
reverse_onto [] out = out
reverse_onto (p ∷ ps) out = reverse_onto ps (p ∷ out)

abbrev is_rooted : Bytes → Bool
is_rooted [] = false
is_rooted (b ∷ s) = b == slash

abbrev dot_if_empty : Bytes → Bytes
dot_if_empty [] = codes "."
dot_if_empty (b ∷ s) = b ∷ s

-- `filepath.Clean`
unfoldable pub clean : Bytes → Bytes
unfolding split_slash join_slash bytes_eq
clean path =
    let rooted = is_rooted path in
    let parts = join_slash (reverse_onto (clean_parts rooted [] (split_slash path)) []) in
    if rooted then slash ∷ parts else dot_if_empty parts

-- `filepath.Join` of two elements.
unfoldable pub join_path : Bytes → Bytes → Bytes
unfolding clean
join_path [] name = if is_nil name then [] else clean name
join_path (b ∷ dir) name = if is_nil name then clean (b ∷ dir) else clean (b ∷ dir ++ slash ∷ name)

-- A path's last part, with the slash in front of it left out, and what is before it, with the slash.
abbrev last_part : List Bytes → Bytes
last_part [] = []
last_part (p ∷ []) = p
last_part (p ∷ q ∷ ps) = last_part (q ∷ ps)

abbrev before_last_part : List Bytes → Bytes
before_last_part [] = []
before_last_part (p ∷ []) = []
before_last_part (p ∷ q ∷ ps) = p ++ slash ∷ before_last_part (q ∷ ps)

-- `filepath.Dir`
unfoldable pub dir_of : Bytes → Bytes
unfolding clean split_slash
dir_of path = clean (before_last_part (split_slash path))

abbrev before_slashes : ℕ → Bytes → Bytes
before_slashes b [] = if b == slash then [] else b ∷ []
before_slashes b (c ∷ s) = b ∷ c ∷ s

abbrev trim_slashes : Bytes → Bytes
trim_slashes [] = []
trim_slashes (b ∷ s) = before_slashes b (trim_slashes s)

abbrev slash_if_empty : Bytes → Bytes
slash_if_empty [] = slash ∷ []
slash_if_empty (b ∷ s) = b ∷ s

-- `filepath.Base`
unfoldable pub base_of : Bytes → Bytes
unfolding split_slash
base_of [] = codes "."
base_of (b ∷ s) = slash_if_empty (last_part (split_slash (trim_slashes (b ∷ s))))

paths_run :
    (base_of (codes "/srv/volumes/a1/banned-ips.json") ≡ codes "banned-ips.json")
    × (dir_of (codes "/srv/volumes/a1/banned-ips.json") ≡ codes "/srv/volumes/a1")
    × (join_path (codes "/srv/./volumes/b/../a1/") (codes "x") ≡ codes "/srv/volumes/a1/x")
unfolding base_of dir_of join_path
paths_run = (refl, refl, refl)
