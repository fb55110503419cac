-- ===== src/CacheGc/Manifest.antt =====
-- internal/cachegc/graph_parse.go, and `readManifest`, `readManifestChildren` and `needsOCITraversal`
-- of references_graph.go: the digests that a stored manifest names. Decoding JSON and normalising a
-- media type (mime.ParseMediaType) are a parameter, the record `Decoder`.
use regimux.Prelude.{
  ℕ, ◌+◌, Bool, true, false, ◌&&◌, not, List, [], ◌∷◌, Option, none, some, String, ltb, length,
  take, if◌then◌else◌,
}
use regimux.Prelude.Int.{pos, ltb_ℤ, leb_ℤ}
use text.Mathlib.Text.{◌==◌}
use regimux.JsonBudget.{default_limits, err_limit, err_invalid_json, check}
use regimux.CacheGc.Records.{ManifestRecord}
use regimux.CacheGc.Outcome.{
  Result, ok, err, object_failed, manifest_unreadable, manifest_unparsable, json_limit,
  json_invalid,
}

-- What `NormalizeMediaType` makes of a text.
pub data MediaType : Type 0 where
  missing oci_manifest docker_manifest oci_index docker_manifest_list other : MediaType

pub record OciManifest : Type 0 where
  pub subject : Option String
  pub config : String
  pub layers : List String

pub record OciIndex : Type 0 where
  pub subject : Option String
  pub manifests : List String

pub record Decoder : Type 0 where
  pub normalize_media_type : String → MediaType
  pub envelope : List ℕ → Option String
  pub manifest : List ℕ → Option OciManifest
  pub index : List ℕ → Option OciIndex
  pub utf8_valid : List ℕ → Bool
  pub json_valid : List ℕ → Bool

-- What the object store holds under a key: no object, one that cannot be read, or bytes.
pub data ObjectState : Type 0 where
  no_object unreadable : ObjectState
  stored : List ℕ → ObjectState

abbrev pub manifest_read_limit : ℕ
manifest_read_limit = 4_194_304

is_oci : MediaType → Bool
is_oci oci_manifest = true
is_oci docker_manifest = true
is_oci oci_index = true
is_oci docker_manifest_list = true
is_oci missing = false
is_oci other = false

with_subject : Option String → List String → List String
with_subject none refs = refs
with_subject (some subject) refs = subject ∷ refs

module _ (d : Decoder) where
  is_oci_manifest_type : String → Bool
  unfolding is_oci
  is_oci_manifest_type media_type = is_oci (d.normalize_media_type media_type)

  unfoldable pub needs_oci_traversal : ManifestRecord → Bool
  unfolding is_oci_manifest_type
  needs_oci_traversal m =
      if is_oci_manifest_type m.media_type
      then true
      else m.media_type == "" && ltb_ℤ (pos 0) m.size && leb_ℤ m.size (pos manifest_read_limit)

  decode_oci_manifest : List ℕ → Result (List String)
  unfolding with_subject
  decode_oci_manifest body = elim (d.manifest body) [
    | none ↦ err manifest_unparsable
    | some m ↦ ok (with_subject m.subject (m.config ∷ m.layers))
  ]

  decode_oci_index : List ℕ → Result (List String)
  unfolding with_subject
  decode_oci_index body = elim (d.index body) [
    | none ↦ err manifest_unparsable
    | some i ↦ ok (with_subject i.subject i.manifests)
  ]

  pub decode_manifest_references : MediaType → List ℕ → Result (List String)
  unfolding decode_oci_manifest decode_oci_index
  decode_manifest_references media_type body =
      elim (check d.utf8_valid d.json_valid body default_limits) [
        | some e ↦ elim e [ err_limit ↦ err json_limit | err_invalid_json ↦ err json_invalid ]
        | none ↦ elim media_type [
          | oci_manifest ↦ decode_oci_manifest body
          | docker_manifest ↦ decode_oci_manifest body
          | _ ↦ decode_oci_index body
        ]
      ]

  -- The part of `manifestReferences` behind the media type.
  typed_references : MediaType → List ℕ → Result (List String)
  unfolding decode_manifest_references is_oci
  typed_references media_type [] = if is_oci media_type then err manifest_unparsable else ok []
  typed_references media_type (c ∷ body) =
      if is_oci media_type then decode_manifest_references media_type (c ∷ body) else ok []

  pub manifest_references : String → List ℕ → Result (List String)
  unfolding typed_references
  manifest_references media_type body = elim (d.normalize_media_type media_type) [
    | missing ↦ elim (d.envelope body) [
      | none ↦ ok []
      | some inner ↦ typed_references (d.normalize_media_type inner) body
    ]
    | other ↦ typed_references other body
    | oci_manifest ↦ typed_references oci_manifest body
    | docker_manifest ↦ typed_references docker_manifest body
    | oci_index ↦ typed_references oci_index body
    | docker_manifest_list ↦ typed_references docker_manifest_list body
  ]

module _ (objects : String → ObjectState) where
  read_object : String → Result (List ℕ)
  read_object key = elim (objects key) [
    | no_object ↦ err object_failed
    | unreadable ↦ err object_failed
    | stored content ↦
        (let body = take (manifest_read_limit + 1) content in
          if ltb manifest_read_limit (length body) then err manifest_unreadable else ok body)
  ]

  unfoldable pub read_manifest : ManifestRecord → Result (List ℕ)
  unfolding read_object
  read_manifest m =
      let key = if m.object_key == "" then m.digest else m.object_key in
      if key == "" then ok [] else read_object key

  unfoldable pub read_manifest_children : Decoder → Bool → ManifestRecord → Result (List String)
  read_manifest_children d strict m =
      if not (needs_oci_traversal d m) then ok [] else elim (read_manifest m) [
        | err e ↦ if strict then err manifest_unreadable else ok []
        | ok body ↦ elim (manifest_references d m.media_type body) [
          | ok children ↦ ok children
          | err json_limit ↦ err json_limit
          | err json_invalid ↦ err json_invalid
          | err e ↦ if strict then err manifest_unparsable else ok []
        ]
      ]
