-- ===== src/Paths/Requests.antt =====
-- `split`, `texture_request` and `viewer_asset_request` of region/src/capability_paths.cpp. A part of
-- a path that `find` and `substr` cut off is the list of its bytes.
use homeworldz.Common.{
  ℕ, Bool, true, false, Option, none, some, [], ◌∷◌, ◌||◌, ◌==◌, length, drop, if◌then◌else◌,
}
use homeworldz.Common.Bytes.{Bytes, codes}
use homeworldz.Transit.Gate.{starts_with}
use homeworldz.Transit.Registry.{is_empty}

pub record SessionAndQuery : Type 0 where
  pub session : Bytes
  pub query : Bytes

pub record TextureRequest : Type 0 where
  pub session : Bytes
  pub texture : Bytes

pub record ViewerAssetRequest : Type 0 where
  pub session : Bytes
  pub asset : Bytes
  pub mesh : Bool
  pub texture : Bool

abbrev pub with_before : ℕ → Option (Bytes × Bytes) → Option (Bytes × Bytes)
with_before c none = none
with_before c (some (before, after)) = some (c ∷ before, after)

-- What stands before and after the first place of a character, by `find`.
unfoldable pub cut_at : ℕ → Bytes → Option (Bytes × Bytes)
cut_at mark [] = none
cut_at mark (c ∷ cs) =
    let rest = with_before c (cut_at mark cs) in if c == mark then some ([], cs) else rest

-- The same for a text.
unfoldable pub cut_at_text : Bytes → Bytes → Option (Bytes × Bytes)
cut_at_text text [] = if is_empty text then some ([], []) else none
cut_at_text text (c ∷ cs) =
    let rest = with_before c (cut_at_text text cs) in
    if starts_with text (c ∷ cs) then some ([], drop (length text) (c ∷ cs)) else rest

-- The session without a slash at its end.
unfoldable pub without_slash : Bytes → Bytes
without_slash [] = []
without_slash (c ∷ cs) =
    let rest = without_slash cs in
    if is_empty cs then (if c == b'/' then [] else c ∷ []) else c ∷ rest

abbrev pub is_cut : Option (Bytes × Bytes) → Bool
is_cut none = false
is_cut (some parts) = true

abbrev pub session_and_query : Option (Bytes × Bytes) → Option SessionAndQuery
session_and_query none = none
session_and_query (some (before, query)) =
    let session = without_slash before in
    if is_empty session || is_cut (cut_at b'&' query)
    then none
    else some (record { session = session; query = query })

unfoldable pub split : Bytes → Bytes → Option SessionAndQuery
split path prefix =
    if starts_with prefix path
    then session_and_query (cut_at b'?' (drop (length prefix) path))
    else none

abbrev pub texture_prefix : Bytes
texture_prefix = codes "/caps/texture/"

abbrev pub texture_key : Bytes
texture_key = codes "texture_id="

abbrev pub texture_of : Option SessionAndQuery → Option TextureRequest
texture_of none = none
texture_of (some parts) =
    if starts_with texture_key parts.query
    then (let texture = drop (length texture_key) parts.query in
        if is_empty texture
        then none
        else some (record { session = parts.session; texture = texture }))
    else none

unfoldable pub texture_request : Bytes → Option TextureRequest
texture_request path = texture_of (split path texture_prefix)

abbrev pub asset_at : SessionAndQuery → Option (Bytes × Bytes) → Option ViewerAssetRequest
asset_at parts none = none
asset_at parts (some (before, asset)) =
    if is_empty before || is_empty asset
    then none
    else some (record {
      session = parts.session;
      asset = asset;
      mesh = starts_with (codes "mesh_id=") parts.query;
      texture = starts_with (codes "texture_id=") parts.query;
    })

abbrev pub asset_of : Option SessionAndQuery → Option ViewerAssetRequest
asset_of none = none
asset_of (some parts) = asset_at parts (cut_at_text (codes "_id=") parts.query)

unfoldable pub viewer_asset_request : Bytes → Option ViewerAssetRequest
viewer_asset_request path = asset_of (split path (codes "/caps/assets/"))

abbrev pub fetched : Option ViewerAssetRequest → Option TextureRequest
fetched none = none
fetched (some request) =
    if request.texture
    then some (record { session = request.session; texture = request.asset })
    else none

abbrev pub direct_or : Option TextureRequest → Option TextureRequest → Option TextureRequest
direct_or (some direct) other = some direct
direct_or none other = other

unfoldable pub texture_fetch : Bytes → Option ViewerAssetRequest → Option TextureRequest
texture_fetch path viewer_asset = direct_or (texture_request path) (fetched viewer_asset)
