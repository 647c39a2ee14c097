-- ===== src/Members.antt =====
-- internal/backup/bundle.go: safeMember and allowedMember, with path.Clean.
pub mod Normal
pub mod Join
use mongodb_backup_s.Base.{
  Bool, true, false, ◌&&◌, ◌||◌, not, List, [], ◌∷◌, ◌++◌, Bytes, codes, if◌then◌else◌, is_empty,
  contains_any, split, str_eq, has_prefix, utf8_valid, reverse, join_with,
}

abbrev pub dot : Bytes
dot = codes "."

abbrev pub dots : Bytes
dots = codes ".."

abbrev pub slash : Bytes
slash = codes "/"

-- The elements of a path that are kept so far, the last one first.
pub step_up : Bool → List Bytes → List Bytes
step_up rooted [] = if rooted then [] else dots ∷ []
step_up rooted (e ∷ kept) = if str_eq e dots then dots ∷ e ∷ kept else kept

pub clean_elements : Bool → List Bytes → List Bytes → List Bytes
unfolding step_up str_eq
clean_elements rooted kept [] = kept
clean_elements rooted kept (e ∷ es) =
    clean_elements rooted
      (if is_empty e || str_eq e dot
        then kept
        else if str_eq e dots
        then step_up rooted kept
        else e ∷ kept)
      es

pub or_dot : Bytes → Bytes
or_dot s = if is_empty s then dot else s

-- `path.Clean`
unfoldable pub clean : Bytes → Bytes
unfolding clean_elements or_dot has_prefix split
clean s =
    if has_prefix s slash
    then slash ++ join_with b'/' (reverse (clean_elements true [] (split s b'/')))
    else or_dot (join_with b'/' (reverse (clean_elements false [] (split s b'/'))))

-- `filepath.Join` of a directory and a name below it.
unfoldable pub join_path : Bytes → Bytes → Bytes
unfolding clean
join_path dir name = clean (dir ++ (b'/' ∷ name))

unfoldable pub safe_member : Bytes → Bool
unfolding clean utf8_valid has_prefix str_eq
safe_member name =
    not (is_empty name)
    && utf8_valid name
    && not (contains_any name (b'\\' ∷ b':' ∷ 0 ∷ []))
    && not (has_prefix name slash)
    && str_eq (clean name) name
    && not (str_eq name dot)
    && not (str_eq name dots)
    && not (has_prefix name (codes "../"))

abbrev pub manifest_json : Bytes
manifest_json = codes "manifest.json"

abbrev pub replica_set_json : Bytes
replica_set_json = codes "replica-set.json"

abbrev pub data_archive : Bytes
data_archive = codes "data.archive.gz"

abbrev pub auth_archive : Bytes
auth_archive = codes "auth.archive.gz"

abbrev pub config_directory : Bytes
config_directory = codes "config/"

unfoldable pub allowed_member : Bytes → Bool
unfolding str_eq has_prefix
allowed_member name =
    str_eq name manifest_json
    || str_eq name replica_set_json
    || str_eq name data_archive
    || str_eq name auth_archive
    || has_prefix name config_directory
