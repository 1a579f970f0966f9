-- ===== src/Paths/Tests.antt =====
-- Texture requests on concrete paths.
use homeworldz.Common.{◌≡◌, refl, inr, true, false, none, some, arith}
use homeworldz.Common.Bytes.{codes}
use homeworldz.Paths.Requests.{
  texture_fetch, viewer_asset_request, split, cut_at, cut_at_text, without_slash,
}
use homeworldz.Paths.Written.{IsSession, asset_prefix, texture_fetch-path_of}
use homeworldz.Transit.Gate.{starts_with}

s1-IsSession : IsSession (codes "s1")
s1-IsSession = record {
  given = refl;
  plain = ((λ e. omega arith), ((λ e. omega arith), ((λ e. omega arith), tt)));
}

texture_fetch-path_of_example :
    texture_fetch
      (codes "/caps/assets/s1/?texture_id=7f")
      (viewer_asset_request (codes "/caps/assets/s1/?texture_id=7f"))
    ≡ some (record { session = codes "s1"; texture = codes "7f" })
texture_fetch-path_of_example =
    texture_fetch-path_of (codes "s1") (codes "7f") s1-IsSession
      ((λ e. omega arith), ((λ e. omega arith), tt)) refl asset_prefix (inr refl)

-- Another kind of asset.
mesh_request :
    viewer_asset_request (codes "/caps/assets/s1?mesh_id=7f")
    ≡ some (record { session = codes "s1"; asset = codes "7f"; mesh = true; texture = false })
unfolding viewer_asset_request split cut_at cut_at_text without_slash starts_with
mesh_request = refl

-- A second parameter.
two_parameters : viewer_asset_request (codes "/caps/assets/s1?mesh_id=7f&lod=1") ≡ none
unfolding viewer_asset_request split cut_at cut_at_text without_slash starts_with
two_parameters = refl
