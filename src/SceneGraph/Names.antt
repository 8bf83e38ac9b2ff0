-- ===== src/SceneGraph/Names.antt =====
-- Identifiers and the names of kinds.
use sbs_server.Prelude.{
  ℕ, Bool, true, false, not, ◌&&◌, ◌||◌, Option, none, some, [], ◌∷◌, if◌then◌else◌, ◌==◌, leb, ltb,
  length, ◌≡◌, refl,
}
use sbs_server.Prelude.Bytes.{Bytes, codes, str_eq}
use sbs_server.SceneGraph.Types.{
  SourceKind, v4l2src, uridecodebin, videotestsrc, image, text, vfmcap, alsa_audio, TransitionKind,
  cut, fade, slide,
}

-- `g_ascii_isalnum`
is_alnum : ℕ → Bool
is_alnum c =
    (leb b'0' c && leb c b'9') || ((leb b'A' c && leb c b'Z') || (leb b'a' c && leb c b'z'))

-- The characters of an identifier.
id_chars : Bytes → Bool
unfolding is_alnum
id_chars [] = true
id_chars (c ∷ s) =
    let rest = id_chars s in
    if not (is_alnum c) && (not (c == b'-') && (not (c == b'_') && not (c == b'.')))
    then false
    else rest

-- `valid_graph_id`, of an id other than NULL; NULL is refused where the operations match on it.
unfoldable pub valid_id : Bytes → Bool
unfolding id_chars
valid_id [] = false
valid_id (c ∷ s) = if ltb 96 (length (c ∷ s)) then false else id_chars (c ∷ s)

-- `sbs_scene_graph_source_kind_name`
unfoldable pub source_kind_name : SourceKind → Bytes
source_kind_name v4l2src = codes "v4l2src"
source_kind_name uridecodebin = codes "uridecodebin"
source_kind_name videotestsrc = codes "videotestsrc"
source_kind_name image = codes "image"
source_kind_name text = codes "text"
source_kind_name vfmcap = codes "vfmcap"
source_kind_name alsa_audio = codes "alsa_audio"

-- `sbs_scene_graph_parse_source_kind`; `none` is its `false`.
unfoldable pub parse_source_kind : Option Bytes → Option SourceKind
parse_source_kind none = some videotestsrc
parse_source_kind (some type) =
    if str_eq type (codes "videotestsrc")
    then some videotestsrc
    else if str_eq type (codes "v4l2src")
    then some v4l2src
    else if str_eq type (codes "uridecodebin")
    then some uridecodebin
    else if str_eq type (codes "image")
    then some image
    else if str_eq type (codes "text")
    then some text
    else if str_eq type (codes "vfmcap")
    then some vfmcap
    else if str_eq type (codes "alsa_audio") || str_eq type (codes "audio")
    then some alsa_audio
    else none

-- `sbs_scene_graph_transition_kind_name`
unfoldable pub transition_kind_name : TransitionKind → Bytes
transition_kind_name cut = codes "cut"
transition_kind_name fade = codes "fade"
transition_kind_name slide = codes "slide"

-- Every kind of source is parsed back from its name.
pub parse-source_kind_name :
    (k : SourceKind) → parse_source_kind (some (source_kind_name k)) ≡ some k
unfolding parse_source_kind source_kind_name str_eq
parse-source_kind_name v4l2src = refl
parse-source_kind_name uridecodebin = refl
parse-source_kind_name videotestsrc = refl
parse-source_kind_name image = refl
parse-source_kind_name text = refl
parse-source_kind_name vfmcap = refl
parse-source_kind_name alsa_audio = refl
