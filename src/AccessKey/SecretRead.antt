-- ===== src/AccessKey/SecretRead.antt =====
-- A reader of the secret's content, as AWS tools read environment variables and credentials files,
-- and that it gives back the id and the secret that were written.
use Prim.Native.String.{◌∷◌}
use text.Mathlib.TextLemmas.{cons-append, nil-append, append_assoc}
use garage_s3_operator.Base as Base
use garage_s3_operator.Base.{
  String, ◌<>◌, ◌≡◌, refl, ap, ◌∙◌, false, inl, inr, List, Option, none, some, Bool-cases,
  if◌then◌else◌, ◌==◌, string_eq, ==-of_eq,
}
use garage_s3_operator.Api.{aws_config_format}
use garage_s3_operator.Api.TargetName.{Lacks}
use garage_s3_operator.Helper.{map_get}
use garage_s3_operator.AccessKey.SecretContent.{expected_secret_content, aws_config}
use garage_s3_operator.AccessKey.TextPieces.{
  cut, split, cut-append, reshape, split_lines, lacks, lacks-Lacks, Lacks-append,
}

-- The value of the first line `name=value`.
unfoldable assigned : String → List String → Option String
unfolding cut string_eq
assigned name List.[] = none
assigned name (List.◌∷◌ l ls) =
    let rest = assigned name ls in if (cut "=" l).0 == name then some (cut "=" l).1 else rest

-- The lines behind the first line `[profile]`.
unfoldable section_of : String → List String → List String
unfolding string_eq
section_of title List.[] = Base.[]
section_of title (List.◌∷◌ l ls) = let rest = section_of title ls in if l == title then ls else rest

-- The value of a name in the default profile of a credentials file.
unfoldable profile_value : String → String → Option String
unfolding assigned section_of split
profile_value name file = assigned name (section_of "[default]" (split "\n" file))

abbrev both : Option String → Option String → Option (String × String)
both none o = none
both (some a) none = none
both (some a) (some b) = some (a, b)

-- The id and the secret in a content: from its credentials file, or from its two variables.
unfoldable pub read_content : String → List (String × String) → Option (String × String)
unfolding profile_value map_get
read_content format content =
    if format == aws_config_format
    then elim (map_get "config" content) [
      | none ↦ none
      | some file ↦
          both (profile_value "aws_access_key_id" file) (profile_value "aws_secret_access_key" file)
    ]
    else both (map_get "AWS_ACCESS_KEY_ID" content) (map_get "AWS_SECRET_ACCESS_KEY" content)

run :
    read_content "AWSConfig" (expected_secret_content "AWSConfig" "GK1" "s=3") ≡ some ("GK1", "s=3")
unfolding read_content expected_secret_content string_eq
run = refl

-- A line `name=value` is cut at its first "=".
cut_assignment :
    (name value : String) → Lacks "=" name → cut "=" ((name <> ("=" ∷ "")) <> value) ≡ (name, value)
cut_assignment name value h =
    ap (cut "=") (
      append_assoc name ("=" ∷ "") value
      ∙ ap (λ u. name <> u) (cons-append "=" "" value ∙ ap (λ u. "=" ∷ u) (nil-append value)))
    ∙ cut-append "=" name value h

-- The credentials file line by line.
lines_lem :
    (id secret : String)
    → Lacks "\n" id
    → Lacks "\n" secret
    → split "\n" (aws_config id secret)
      ≡ Base.◌∷◌ "" (
          Base.◌∷◌ "[default]" (
            Base.◌∷◌
              ("aws_access_key_id=" <> id)
              (Base.◌∷◌ ("aws_secret_access_key=" <> secret) (split "\n" ""))))
unfolding aws_config lacks string_eq
lines_lem id secret h h' =
    ap (split "\n")
      (reshape "\n" "" "[default]" "aws_access_key_id=" "aws_secret_access_key=" id secret)
    ∙ split_lines "\n" "" "[default]" ("aws_access_key_id=" <> id)
        ("aws_secret_access_key=" <> secret) tt (lacks-Lacks "\n" "[default]" refl)
        (Lacks-append "\n" "aws_access_key_id=" id (lacks-Lacks "\n" "aws_access_key_id=" refl) h)
        (Lacks-append "\n" "aws_secret_access_key=" secret
          (lacks-Lacks "\n" "aws_secret_access_key=" refl) h')

first_assigned :
    (name value : String) (ls : List String)
    → Lacks "=" name
    → assigned name (Base.◌∷◌ ((name <> ("=" ∷ "")) <> value) ls) ≡ some value
unfolding assigned
first_assigned name value ls h = rw (cut_assignment name value h, ==-of_eq name name refl) refl

later_assigned :
    (name other value : String) (ls : List String)
    → Lacks "=" other
    → (other == name) ≡ false
    → assigned name (Base.◌∷◌ ((other <> ("=" ∷ "")) <> value) ls) ≡ assigned name ls
unfolding assigned
later_assigned name other value ls h differ = rw (cut_assignment other value h, differ) refl

aws_config_read :
    (id secret : String)
    → Lacks "\n" id
    → Lacks "\n" secret
    → both
        (profile_value "aws_access_key_id" (aws_config id secret))
        (profile_value "aws_secret_access_key" (aws_config id secret))
      ≡ some (id, secret)
unfolding profile_value section_of lacks string_eq
aws_config_read id secret h h' =
    rw
      (
        lines_lem id secret h h',
        first_assigned "aws_access_key_id" id
            (Base.◌∷◌ ("aws_secret_access_key=" <> secret) (split "\n" ""))
            (lacks-Lacks "=" "aws_access_key_id" refl),
        later_assigned "aws_secret_access_key" "aws_access_key_id" id
            (Base.◌∷◌ ("aws_secret_access_key=" <> secret) (split "\n" ""))
            (lacks-Lacks "=" "aws_access_key_id" refl) refl,
        first_assigned "aws_secret_access_key" secret (split "\n" "")
            (lacks-Lacks "=" "aws_secret_access_key" refl),
      )
      refl

-- In every format, reading the content of the secret gives back the id and the secret of the key that
-- it was made for, provided that neither has a line break: in the format AWSConfig as the values of
-- "aws_access_key_id" and "aws_secret_access_key" in the profile "[default]" of the file "config",
-- read line by line, and in another format as those of "AWS_ACCESS_KEY_ID" and
-- "AWS_SECRET_ACCESS_KEY".
pub read_content-expected_secret_content :
    (format id secret : String)
    → Lacks "\n" id
    → Lacks "\n" secret
    → read_content format (expected_secret_content format id secret) ≡ some (id, secret)
unfolding read_content expected_secret_content map_get string_eq
read_content-expected_secret_content format id secret h h' =
    elim (Bool-cases (format == aws_config_format)) [
      | inl aws ↦ rw aws (aws_config_read id secret h h')
      | inr other ↦ rw other refl
    ]
