-- ===== src/Governance/Comments/Codec.antt =====
-- A way to write comments as lists of numbers and to read them, in the place of serde_json.
use icn_covm.Prelude.{
  ℕ, zero, suc, ◌≡◌, refl, Bool, true, false, Option, none, some, List, [], ◌∷◌, Text, Dict, nat_eq,
  length,
}
use icn_covm.Governance.Comments.{CommentVersion, ProposalComment, CommentJson}

pub record Codec (A : Type 0) : Type 0 where
  pub encode : A → List ℕ → List ℕ
  pub decode : List ℕ → Option (A × List ℕ)
  pub decode-encode : (a : A) (rest : List ℕ) → decode (encode a rest) ≡ some (a, rest)

abbrev then_read :
    {A B : Type 0} → Option (A × List ℕ) → (A → List ℕ → Option (B × List ℕ)) → Option (B × List ℕ)
then_read none f = none
then_read (some (a, rest)) f = f a rest

abbrev first_number : List ℕ → Option (ℕ × List ℕ)
first_number [] = none
first_number (n ∷ rest) = some (n, rest)

abbrev numbers : Codec ℕ
numbers = record {
  encode = λ n rest. n ∷ rest;
  decode = first_number;
  decode-encode = λ n rest. refl;
}

module _ {A B : Type 0} where
  abbrev mapped : (f : A → B) (g : B → A) → ((b : B) → f (g b) ≡ b) → Codec A → Codec B
  mapped f g e C = record {
    encode = λ b. C.encode (g b);
    decode = λ bytes. then_read (C.decode bytes) (λ a rest. some (f a, rest));
    decode-encode = λ b rest. rw (C.decode-encode (g b) rest, e b) refl;
  }

  infixr 4 ◌⊗◌
  abbrev ◌⊗◌ : Codec A → Codec B → Codec (A × B)
  C ⊗ D = record {
    encode = λ p rest. C.encode p.0 (D.encode p.1 rest);
    decode = λ bytes.
        then_read (C.decode bytes)
          (λ a rest. then_read (D.decode rest) (λ b rest'. some ((a, b), rest')));
    decode-encode =
        λ p rest. rw (C.decode-encode p.0 (D.encode p.1 rest), D.decode-encode p.1 rest) refl;
  }

module _ {A : Type 0} (C : Codec A) where
  abbrev encode_all : List A → List ℕ → List ℕ
  encode_all [] rest = rest
  encode_all (a ∷ xs) rest = C.encode a (encode_all xs rest)

  abbrev decode_all : ℕ → List ℕ → Option (List A × List ℕ)
  decode_all zero bytes = some ([], bytes)
  decode_all (suc n) bytes =
      let more = decode_all n in
      then_read (C.decode bytes)
        (λ a rest. then_read (more rest) (λ xs rest'. some (a ∷ xs, rest')))

  pub decode_all-encode_all :
      (xs : List A) (rest : List ℕ) → decode_all (length xs) (encode_all xs rest) ≡ some (xs, rest)
  decode_all-encode_all [] rest = refl
  decode_all-encode_all (a ∷ xs) rest =
      rw (C.decode-encode a (encode_all xs rest), decode_all-encode_all xs rest) refl

  abbrev counted : List ℕ → Option (List A × List ℕ)
  counted [] = none
  counted (n ∷ rest) = decode_all n rest

  abbrev lists : Codec (List A)
  lists = record {
    encode = λ xs rest. length xs ∷ encode_all xs rest;
    decode = counted;
    decode-encode = decode_all-encode_all;
  }

  abbrev of_list : List A → Option A
  of_list [] = none
  of_list (a ∷ xs) = some a

  abbrev to_list : Option A → List A
  to_list none = []
  to_list (some a) = a ∷ []

  pub of_list-to_list : (o : Option A) → of_list (to_list o) ≡ o
  of_list-to_list none = refl
  of_list-to_list (some a) = refl

  abbrev options : Codec (Option A)
  options = mapped of_list to_list of_list-to_list lists

abbrev bit : Bool → ℕ
bit true = 1
bit false = 0

pub bit_back : (b : Bool) → nat_eq (bit b) 1 ≡ b
bit_back true = refl
bit_back false = refl

abbrev bits : Codec Bool
bits = mapped (λ n. nat_eq n 1) bit bit_back numbers

abbrev texts : Codec Text
texts = lists numbers

abbrev versions : Codec CommentVersion
versions =
    mapped (λ p. record { content = p.0; timestamp = p.1 }) (λ v. (v.content, v.timestamp))
      (λ v. refl) (texts ⊗ numbers)

abbrev Fields : Type 0
Fields =
    Text
    × (Text × (ℕ × (Text × (Option Text × (List Text × (Dict ℕ × (Bool × List CommentVersion)))))))

abbrev comment_of : Fields → ProposalComment
comment_of
      (
        id,
        (author, (timestamp, (content, (reply_to, (tags, (reactions, (hidden, edit_history))))))),
      ) =
    record {
      id = id;
      author = author;
      timestamp = timestamp;
      content = content;
      reply_to = reply_to;
      tags = tags;
      reactions = reactions;
      hidden = hidden;
      edit_history = edit_history;
    }

abbrev fields_of : ProposalComment → Fields
fields_of c = (
  c.id,
  (
    c.author,
    (c.timestamp, (c.content, (c.reply_to, (c.tags, (c.reactions, (c.hidden, c.edit_history)))))),
  ),
)

abbrev comments : Codec ProposalComment
comments =
    mapped comment_of fields_of (λ c. refl)
      (texts
        ⊗ texts
        ⊗ numbers
        ⊗ texts
        ⊗ options texts
        ⊗ lists texts
        ⊗ lists (texts ⊗ numbers)
        ⊗ bits
        ⊗ lists versions)

abbrev value_of : {A : Type 0} → Option (A × List ℕ) → Option A
value_of none = none
value_of (some (a, rest)) = some a

abbrev pub documents : CommentJson (List ℕ)
documents = record {
  to_json = λ c. comments.encode c [];
  version_to_json = λ v. versions.encode v [];
  from_json = λ b. value_of (comments.decode b);
  legacy_from_json = λ b. none;
  json_error = λ b. [];
}

pub documents_read : (c : ProposalComment) → documents.from_json (documents.to_json c) ≡ some c
documents_read c = rw (comments.decode-encode c []) refl
