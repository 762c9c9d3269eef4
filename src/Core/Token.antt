-- ===== src/Core/Token.antt =====
-- include/airmap/token.h and src/airmap/token.cpp: the union of the kinds of tokens.
pub mod Assignment
use platform_sdk.Base.{
  ℕ, ◌==◌, ◌&&◌, Bool, String, Option, none, some, ◌>>=◌, if◌then◌else◌, str_eq,
}

pub data TokenType : Type 0 where
  unknown anonymous oauth refreshed : TokenType

pub record Anonymous : Type 0 where
  pub id : String

-- `Type` has one name.
pub record OAuth : Type 0 where
  pub type : ℕ
  pub refresh : String
  pub id : String
  pub access : String

pub record Refreshed : Type 0 where
  pub type : ℕ
  pub expires_in : ℕ
  pub id : String
  pub original_token : Option OAuth

-- The member of the union that is alive.
pub data Member : Type 0 where
  nothing : Member
  anonymous_member : Anonymous → Member
  oauth_member : OAuth → Member
  refreshed_member : Refreshed → Member

pub record Token : Type 0 where
  pub type : TokenType
  pub member : Member

-- What `id` comes to: `none` is undefined behaviour.
pub data Identity : Type 0 where
  is : String → Identity
  throws : Identity

-- The accessors: a member that is not alive is not to be read.
unfoldable pub anonymous_of : Member → Option Anonymous
anonymous_of (anonymous_member x) = some x
anonymous_of _ = none

unfoldable pub oauth_of : Member → Option OAuth
oauth_of (oauth_member x) = some x
oauth_of _ = none

unfoldable pub refreshed_of : Member → Option Refreshed
refreshed_of (refreshed_member x) = some x
refreshed_of _ = none

unfoldable pub id : Token → Option Identity
id t = elim t.type [
  | unknown ↦ some throws
  | anonymous ↦ do x ← anonymous_of t.member; some (is x.id)
  | oauth ↦ do x ← oauth_of t.member; some (is x.id)
  | refreshed ↦ do x ← refreshed_of t.member; some (is x.id)
]

-- `construct` from a token, on a token without a member.
unfoldable pub construct : Token → Token → Option Token
construct token t = elim token.type [
  | unknown ↦ some (record t { type = unknown })
  | anonymous ↦ do
    x ← anonymous_of token.member
    some (record { type = anonymous; member = anonymous_member x })
  | oauth ↦ do x ← oauth_of token.member; some (record { type = oauth; member = oauth_member x })
  | refreshed ↦ do
    x ← refreshed_of token.member
    some (record { type = refreshed; member = refreshed_member x })
]

-- `destruct`: the destructor of the member that the type selects.
unfoldable pub destruct : Token → Option Token
destruct t = elim t.type [
  | unknown ↦ some (record t { type = unknown })
  | anonymous ↦ do x ← anonymous_of t.member; some (record { type = unknown; member = nothing })
  | oauth ↦ do x ← oauth_of t.member; some (record { type = unknown; member = nothing })
  | refreshed ↦ do x ← refreshed_of t.member; some (record { type = unknown; member = nothing })
]

abbrev pub write : ℕ → Token → (ℕ → Token) → ℕ → Token
write i t st k = if k == i then t else st k

-- `*i = *j` for two addresses, which may be the same.
unfoldable pub assign : ℕ → ℕ → (ℕ → Token) → Option (ℕ → Token)
assign i j st = do
  gone ← destruct (st i)
  let st' = write i gone st
  made ← construct (st' j) gone
  some (write i made st')

-- `operator<<` and `operator>>` of a type; an unknown word leaves the type as it is.
unfoldable pub print : TokenType → String
print anonymous = "anonymous"
print oauth = "oauth"
print refreshed = "refreshed"
print unknown = "unknown"

unfoldable pub parse : String → TokenType → TokenType
parse s type =
    if str_eq s "anonymous"
    then anonymous
    else if str_eq s "oauth"
    then oauth
    else if str_eq s "refreshed"
    then refreshed
    else if str_eq s "unknown"
    then unknown
    else type

-- The comparisons; that of refreshed tokens leaves out the original token.
unfoldable pub oauth_eq : OAuth → OAuth → Bool
oauth_eq a b =
    a.type == b.type && str_eq a.refresh b.refresh && str_eq a.id b.id && str_eq a.access b.access

unfoldable pub refreshed_eq : Refreshed → Refreshed → Bool
refreshed_eq a b = a.type == b.type && a.expires_in == b.expires_in && str_eq a.id b.id
