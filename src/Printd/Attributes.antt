-- ===== src/Printd/Attributes.antt =====
-- The attributes that the request to the printer holds, encoded and read by the rules of IPP.
use my_study.Base.{
  ℕ, zero, suc, ◌≡◌, ◌≢◌, refl, ap, ◌∙◌, ◌+◌, ◌*◌, ◌/◌, ◌%◌, ◌^◌, ◌<◌, ◌==◌, ne→==, Bool, Option,
  none, some, List, [], ◌∷◌, ◌++◌, append_assoc, All, if◌then◌else◌, arith, length, take, drop,
  take-append, drop-append,
}
use my_study.Base.Bytes.{Bytes}
use my_study.Printd.Tag
use my_study.Printd.Ipp.{
  be16, be32, add_option, ipp_bytes, uri_text, format_of, op_print_job, attributes_charset, utf_8,
  attributes_natural_language, en_us, printer_uri, requesting_user_name, job_name, document_format,
}

-- A name or a value: two bytes with its length, then its bytes; and what follows.
abbrev pub read_text : Bytes → Option (Bytes × Bytes)
read_text (high ∷ low ∷ s) = some (take (high * 256 + low) s, drop (high * 256 + low) s)
read_text _ = none

-- A tag with its name and its value.
pub record Attribute : Type 0 where
  pub tag : ℕ
  pub name : Bytes
  pub value : Bytes

abbrev pub add_attribute :
    Attribute → Option (List Attribute × Bytes) → Option (List Attribute × Bytes)
add_attribute a none = none
add_attribute a (some (others, s)) = some (a ∷ others, s)

abbrev pub and_then {ℓ κ} : {A : Type ℓ} {B : Type κ} → Option A → (A → Option B) → Option B
and_then none k = none
and_then (some a) k = k a

-- Attributes up to the tag that ends them; each takes one unit of fuel.
unfoldable pub read_attributes : ℕ → Bytes → Option (List Attribute × Bytes)
read_attributes zero s = none
read_attributes (suc fuel) [] = none
read_attributes (suc fuel) (tag ∷ s) =
    if tag == Tag.end_of_attr
    then some ([], s)
    else and_then (read_text s) (λ n. and_then (read_text n.1) (λ v.
      add_attribute (record { tag = tag; name = n.0; value = v.0 }) (read_attributes fuel v.1)))

-- The bytes of one attribute.
abbrev pub encoded : Attribute → Bytes
encoded a = a.tag ∷ (be16 (length a.name) ++ (a.name ++ (be16 (length a.value) ++ a.value)))

-- Its tag ends nothing, and two bytes hold its lengths.
abbrev pub Short : Attribute → Type 0
Short a = (a.tag ≢ Tag.end_of_attr) × ((length a.name < 2 ^ 16) × (length a.value < 2 ^ 16))

read_text-be16 :
    (s rest : Bytes)
    → length s < 2 ^ 16
    → read_text (be16 (length s) ++ (s ++ rest)) ≡ some (s, rest)
unfolding be16
read_text-be16 s rest short =
    let size : length s / 256 % 256 * 256 + length s % 256 ≡ length s = omega arith in
    rw (size, take-append s rest, drop-append s rest)

read_attributes-encoded :
    (fuel : ℕ) (a : Attribute) (rest : Bytes)
    → Short a
    → read_attributes (suc fuel) (encoded a ++ rest) ≡ add_attribute a (read_attributes fuel rest)
unfolding read_attributes
read_attributes-encoded fuel a rest (tag, lengths) = rw (
  ne→== a.tag Tag.end_of_attr tag,
  append_assoc (be16 (length a.name)) (a.name ++ (be16 (length a.value) ++ a.value)) rest,
  append_assoc a.name (be16 (length a.value) ++ a.value) rest,
  append_assoc (be16 (length a.value)) a.value rest,
  read_text-be16 a.name (be16 (length a.value) ++ (a.value ++ rest)) lengths.0,
  read_text-be16 a.value rest lengths.1,
)

abbrev pub encoded_all : List Attribute → Bytes
encoded_all [] = Tag.end_of_attr ∷ []
encoded_all (a ∷ attrs) = encoded a ++ encoded_all attrs

pub read_attributes-all :
    (attrs : List Attribute)
    → All Short attrs
    → read_attributes (suc (length attrs)) (encoded_all attrs) ≡ some (attrs, [])
unfolding read_attributes
read_attributes-all [] h = refl
read_attributes-all (a ∷ attrs) h =
    read_attributes-encoded (suc (length attrs)) a (encoded_all attrs) h.0
    ∙ ap (add_attribute a) (read_attributes-all attrs h.1)

-- The attributes that the daemon means.
abbrev pub print_attributes : Bytes → Bytes → Bytes → Bool → List Attribute
print_attributes printer_name usernm jobnm text =
    record { tag = Tag.charset; name = attributes_charset; value = utf_8 }
    ∷ record { tag = Tag.natulang; name = attributes_natural_language; value = en_us }
    ∷ record { tag = Tag.uri; name = printer_uri; value = uri_text printer_name }
    ∷ record { tag = Tag.namewolang; name = requesting_user_name; value = usernm }
    ∷ record { tag = Tag.namewolang; name = job_name; value = jobnm }
    ∷ record { tag = Tag.mimetype; name = document_format; value = format_of text }
    ∷ []

added : Bytes → List Attribute → Bytes
added buf [] = buf
added buf (a ∷ attrs) = added (buf ++ encoded a) attrs

added-encoded_all :
    (buf : Bytes) (attrs : List Attribute)
    → added buf attrs ++ (Tag.end_of_attr ∷ []) ≡ buf ++ encoded_all attrs
unfolding added
added-encoded_all buf [] = refl
added-encoded_all buf (a ∷ attrs) =
    added-encoded_all (buf ++ encoded a) attrs ∙ append_assoc buf (encoded a) (encoded_all attrs)

-- The header is its start and the attributes one behind the other.
pub ipp_bytes-encoded :
    (printer_name usernm jobnm : Bytes) (jobid : ℕ) (text : Bool)
    → ipp_bytes (uri_text printer_name) jobid usernm jobnm text
      ≡ (1 ∷ 1 ∷ (be16 op_print_job ++ (be32 jobid ++ (Tag.operation_attr ∷ []))))
        ++ encoded_all (print_attributes printer_name usernm jobnm text)
unfolding ipp_bytes add_option added
ipp_bytes-encoded printer_name usernm jobnm jobid text =
    added-encoded_all (1 ∷ 1 ∷ (be16 op_print_job ++ (be32 jobid ++ (Tag.operation_attr ∷ []))))
      (print_attributes printer_name usernm jobnm text)
