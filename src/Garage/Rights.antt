-- ===== src/Garage/Rights.antt =====
-- The rights in the requests of `setPermissions` and `denyAllPermissions`, from what the SDK
-- documents of its accessors.
use garage_s3_operator.Base.{
  ◌≡◌, refl, Bool, true, false, some, not, arith, ◌∙◌, inl, inr, Bool-cases, string_eq,
}
use garage_s3_operator.Api.{Permissions}
use garage_s3_operator.Platform.{Accessors, ApiBucketKeyPerm, BucketInfo}
use garage_s3_operator.Garage.Laws.{rights}
use garage_s3_operator.Garage.Manager.{split_right, split_permissions, every_perm}

-- A getter gives what was set last, and false for a new value; setters do not interfere. A
-- bucket's id is the field.
pub record AccessorLaws (a : Accessors) : Type 0 where
  pub new_owner : a.get_owner a.new_key_perm ≡ false
  pub new_read : a.get_read a.new_key_perm ≡ false
  pub new_write : a.get_write a.new_key_perm ≡ false
  pub owner_owner : (b : Bool) (p : ApiBucketKeyPerm) → a.get_owner (a.set_owner b p) ≡ b
  pub owner_read : (b : Bool) (p : ApiBucketKeyPerm) → a.get_owner (a.set_read b p) ≡ a.get_owner p
  pub owner_write :
      (b : Bool) (p : ApiBucketKeyPerm) → a.get_owner (a.set_write b p) ≡ a.get_owner p
  pub read_owner : (b : Bool) (p : ApiBucketKeyPerm) → a.get_read (a.set_owner b p) ≡ a.get_read p
  pub read_read : (b : Bool) (p : ApiBucketKeyPerm) → a.get_read (a.set_read b p) ≡ b
  pub read_write : (b : Bool) (p : ApiBucketKeyPerm) → a.get_read (a.set_write b p) ≡ a.get_read p
  pub write_owner :
      (b : Bool) (p : ApiBucketKeyPerm) → a.get_write (a.set_owner b p) ≡ a.get_write p
  pub write_read : (b : Bool) (p : ApiBucketKeyPerm) → a.get_write (a.set_read b p) ≡ a.get_write p
  pub write_write : (b : Bool) (p : ApiBucketKeyPerm) → a.get_write (a.set_write b p) ≡ b
  pub bucket_id : (info : BucketInfo) → a.get_bucket_id (some info) ≡ info.id

abbrev pub complement : Permissions → Permissions
complement p = record { owner = not p.owner; read = not p.read; write = not p.write }

-- A getter before and after one right was sorted into the two requests.
module _ (get : ApiBucketKeyPerm → Bool) (set : ApiBucketKeyPerm → ApiBucketKeyPerm) (b : Bool)
    (x : ApiBucketKeyPerm × ApiBucketKeyPerm) where
  split_right_own :
      ((p : ApiBucketKeyPerm) → get (set p) ≡ true)
      → get x.0 ≡ false
      → get x.1 ≡ false
      → (get (split_right b set x).0 ≡ b) × (get (split_right b set x).1 ≡ not b)
  split_right_own h e f = elim (Bool-cases b) [
    | inl on ↦ rw on (h x.0, f)
    | inr off ↦ rw off (e, h x.1)
  ]

  split_right_other :
      ((p : ApiBucketKeyPerm) → get (set p) ≡ get p)
      → (get (split_right b set x).0 ≡ get x.0) × (get (split_right b set x).1 ≡ get x.1)
  split_right_other h = elim (Bool-cases b) [
    | inl on ↦ rw on (h x.0, refl)
    | inr off ↦ rw off (refl, h x.1)
  ]

module _ (a : Accessors) (laws : AccessorLaws a) where
  open laws use {
    new_owner, new_read, new_write, owner_owner, owner_read, owner_write, read_owner, read_read,
    read_write, write_owner, write_read, write_write,
  }

  pub split_permissions-rights :
      (p : Permissions)
      → (rights a (split_permissions a p).0 ≡ p)
        × (rights a (split_permissions a p).1 ≡ complement p)
  unfolding split_permissions
  split_permissions-rights p =
      (ground (arith, owner, read, write), ground (arith, owner, read, write))
    where
      x : ApiBucketKeyPerm × ApiBucketKeyPerm
      x = (a.new_key_perm, a.new_key_perm)

      y : ApiBucketKeyPerm × ApiBucketKeyPerm
      y = split_right p.owner (a.set_owner true) x

      z : ApiBucketKeyPerm × ApiBucketKeyPerm
      z = split_right p.read (a.set_read true) y

      u : ApiBucketKeyPerm × ApiBucketKeyPerm
      u = split_right p.write (a.set_write true) z

      owner : (a.get_owner u.0 ≡ p.owner) × (a.get_owner u.1 ≡ not p.owner)
      owner =
          let later =
            split_right_other a.get_owner (a.set_write true) p.write z (owner_write true) in
          let late = split_right_other a.get_owner (a.set_read true) p.read y (owner_read true) in
          let own =
            split_right_own a.get_owner (a.set_owner true) p.owner x (owner_owner true) new_owner
              new_owner in
          (later.0 ∙ (late.0 ∙ own.0), later.1 ∙ (late.1 ∙ own.1))

      read : (a.get_read u.0 ≡ p.read) × (a.get_read u.1 ≡ not p.read)
      read =
          let later = split_right_other a.get_read (a.set_write true) p.write z (read_write true) in
          let early = split_right_other a.get_read (a.set_owner true) p.owner x (read_owner true) in
          let own =
            split_right_own a.get_read (a.set_read true) p.read y (read_read true)
              (early.0 ∙ new_read) (early.1 ∙ new_read) in
          (later.0 ∙ own.0, later.1 ∙ own.1)

      write : (a.get_write u.0 ≡ p.write) × (a.get_write u.1 ≡ not p.write)
      write =
          let late = split_right_other a.get_write (a.set_read true) p.read y (write_read true) in
          let early =
            split_right_other a.get_write (a.set_owner true) p.owner x (write_owner true) in
          split_right_own a.get_write (a.set_write true) p.write z (write_write true)
            (late.0 ∙ (early.0 ∙ new_write)) (late.1 ∙ (early.1 ∙ new_write))

  pub every_perm-rights :
      rights a (every_perm a) ≡ record { owner = true; read = true; write = true }
  unfolding every_perm
  every_perm-rights =
      simp (owner_write, owner_read, owner_owner, read_write, read_read, write_write)
