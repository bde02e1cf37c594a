-- ===== src/Identity.antt =====
-- crates/assets/src/identity.rs: logical identities and the tokens that own them. The marker `K`
-- has no run-time content. An `Arc` is the address of its allocation with the shared value.
pub mod Order
use Prim.Native.Nat.{compare, Ordering}
use Prim.Native.Nat.Ordering.{lt, eq, gt}
use fluxel_bases.Prelude.{ℕ, Bool, ◌&&◌, Option, none, some, List, [], ◌∷◌, ◌==◌, if◌then◌else◌}

pub record AssetId : Type 0 where
  pub store : ℕ
  pub slot : ℕ
  pub generation : ℕ

-- `PartialEq for AssetId`
unfoldable pub same_id : AssetId → AssetId → Bool
same_id a b = a.store == b.store && a.slot == b.slot && a.generation == b.generation

-- `Hash for AssetId`: what is fed to the hasher, which is external.
unfoldable pub hash_id : AssetId → List ℕ
hash_id a = a.store ∷ a.slot ∷ a.generation ∷ []

abbrev pub then_cmp : Ordering → Ordering → Ordering
then_cmp eq second = second
then_cmp first _ = first

-- `Ord for AssetId`: the tuple of the fields, compared lexicographically.
unfoldable pub cmp_id : AssetId → AssetId → Ordering
cmp_id a b =
    then_cmp (compare a.store b.store)
      (then_cmp (compare a.slot b.slot) (compare a.generation b.generation))

-- `PartialOrd for AssetId`
unfoldable pub partial_cmp_id : AssetId → AssetId → Option Ordering
unfolding cmp_id
partial_cmp_id a b = some (cmp_id a b)

pub record IdentityToken : Type 0 where
  pub addr : ℕ
  pub id : AssetId

pub record AssetHandle : Type 0 where
  pub token : IdentityToken

abbrev pub handle_id : AssetHandle → AssetId
handle_id h = h.token.id

pub record AssetWeak : Type 0 where
  pub id : AssetId
  pub token : IdentityToken

unfoldable pub downgrade : AssetHandle → AssetWeak
downgrade h = record { id = handle_id h; token = h.token }

-- `Weak::upgrade`: the allocation is alive while it has a strong owner.
unfoldable pub upgrade_token : (ℕ → ℕ) → IdentityToken → Option IdentityToken
upgrade_token strong_count t = if strong_count t.addr == 0 then none else some t
