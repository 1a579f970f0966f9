-- ===== src/Paths/Written.antt =====
-- A path that is written for a request is read as that request.
use homeworldz.Common.{
  ℕ, ◌≡◌, ◌≢◌, ◌⊎◌, inl, inr, refl, ap, ◌∙◌, true, false, none, some, [], ◌∷◌, ◌++◌, drop-append,
  arith,
}
use homeworldz.Common.Bytes.{Bytes, codes}
use homeworldz.Transit.Gate.{starts_with}
use homeworldz.Transit.Registry.{is_empty}
use homeworldz.Paths.Requests.{
  cut_at, without_slash, split, texture_prefix, texture_key, texture_of, texture_request,
  cut_at_text, asset_of, viewer_asset_request, texture_fetch,
}

-- The character does not stand in the text.
abbrev pub Lacks : ℕ → Bytes → Type 0
Lacks mark [] = Unit {0}
Lacks mark (c ∷ cs) = (c ≢ mark) × Lacks mark cs

starts_with-append : (prefix s : Bytes) → starts_with prefix (prefix ++ s) ≡ true
unfolding starts_with
starts_with-append [] s = refl
starts_with-append (c ∷ cs) s = ground (arith, starts_with-append cs s)

cut_at-append :
    (mark : ℕ) (s rest : Bytes) → Lacks mark s → cut_at mark (s ++ mark ∷ rest) ≡ some (s, rest)
unfolding cut_at
cut_at-append mark [] rest h = ground arith
cut_at-append mark (c ∷ cs) rest h = ground (arith, h.0, cut_at-append mark cs rest h.1)

cut_at-none : (mark : ℕ) (s : Bytes) → Lacks mark s → cut_at mark s ≡ none
unfolding cut_at
cut_at-none mark [] h = refl
cut_at-none mark (c ∷ cs) h = ground (arith, h.0, cut_at-none mark cs h.1)

-- A session may be followed by one slash.
without_slash-slash : (s : Bytes) → without_slash (s ++ b'/' ∷ []) ≡ s
unfolding without_slash
without_slash-slash [] = refl
without_slash-slash (c ∷ []) = ground arith
without_slash-slash (c ∷ d ∷ s) = ground (arith, without_slash-slash (d ∷ s))

abbrev pub asset_prefix : Bytes
asset_prefix = codes "/caps/assets/"

-- "<prefix><session>/?<query>"
abbrev pub path_of : Bytes → Bytes → Bytes → Bytes
path_of prefix session query = prefix ++ ((session ++ b'/' ∷ []) ++ b'?' ∷ query)

-- A session identifier that a path can hold: not empty and without a question mark.
pub record IsSession (session : Bytes) : Type 0 where
  pub given : is_empty session ≡ false
  pub plain : Lacks b'?' (session ++ b'/' ∷ [])

split-path_of :
    (prefix session query : Bytes)
    → IsSession session
    → cut_at b'&' query ≡ none
    → split (path_of prefix session query) prefix
      ≡ some (record { session = session; query = query })
unfolding split
split-path_of prefix session query s q = ground (
  arith,
  starts_with-append prefix ((session ++ b'/' ∷ []) ++ b'?' ∷ query),
  drop-append prefix ((session ++ b'/' ∷ []) ++ b'?' ∷ query),
  cut_at-append b'?' (session ++ b'/' ∷ []) query s.plain,
  q,
  without_slash-slash session,
  s.given,
)

texture_of-key :
    (session texture : Bytes)
    → is_empty texture ≡ false
    → texture_of (some (record { session = session; query = texture_key ++ texture }))
      ≡ some (record { session = session; texture = texture })
texture_of-key session texture t =
    ground (arith, starts_with-append texture_key texture, drop-append texture_key texture, t)

cut-key :
    (texture : Bytes)
    → cut_at_text (codes "_id=") (texture_key ++ texture) ≡ some (codes "texture", texture)
unfolding cut_at_text starts_with
cut-key texture = refl

one_parameter : (texture : Bytes) → Lacks b'&' texture → cut_at b'&' (texture_key ++ texture) ≡ none
unfolding cut_at
one_parameter texture h = rw (cut_at-none b'&' texture h) refl

texture_request-path_of :
    (session texture : Bytes)
    → IsSession session
    → Lacks b'&' texture
    → is_empty texture ≡ false
    → texture_request (path_of texture_prefix session (texture_key ++ texture))
      ≡ some (record { session = session; texture = texture })
unfolding texture_request
texture_request-path_of session texture s q t =
    ap texture_of
      (split-path_of texture_prefix session (texture_key ++ texture) s (one_parameter texture q))
    ∙ texture_of-key session texture t

viewer_asset_request-path_of :
    (session texture : Bytes)
    → IsSession session
    → Lacks b'&' texture
    → is_empty texture ≡ false
    → viewer_asset_request (path_of asset_prefix session (texture_key ++ texture))
      ≡ some (record { session = session; asset = texture; mesh = false; texture = true })
unfolding viewer_asset_request starts_with
viewer_asset_request-path_of session texture s q t =
    ap asset_of
      (split-path_of asset_prefix session (texture_key ++ texture) s (one_parameter texture q))
    ∙ ground (arith, cut-key texture, t)

elsewhere : (session query : Bytes) → texture_request (path_of asset_prefix session query) ≡ none
unfolding texture_request split starts_with
elsewhere session query = refl

-- Either capability, asked for a texture by a path that is written for it, with the slash before the
-- query, fetches that texture for that session. The session holds no '?', the texture no '&', and
-- neither is empty.
pub texture_fetch-path_of :
    (session texture : Bytes)
    → IsSession session
    → Lacks b'&' texture
    → is_empty texture ≡ false
    → (prefix : Bytes) → (prefix ≡ texture_prefix) ⊎ (prefix ≡ asset_prefix)
    → (let path = path_of prefix session (texture_key ++ texture) in
        texture_fetch path (viewer_asset_request path)
        ≡ some (record { session = session; texture = texture }))
unfolding texture_fetch
texture_fetch-path_of session texture s q t prefix (inl e) =
    rw e (ground (arith, texture_request-path_of session texture s q t))
texture_fetch-path_of session texture s q t prefix (inr e) = rw e (
    ground (
      arith,
      elsewhere session (texture_key ++ texture),
      viewer_asset_request-path_of session texture s q t,
    ))
