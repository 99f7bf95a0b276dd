-- ===== src/Mapping/Named.antt =====
-- `NamedMappingAttr` of sair_attributes.cc. A name is a number.
pub mod Unused
use structured_additive_ir.Common.{ℕ, ◌+◌, Bool, true, false, List, [], ◌∷◌, length, map}
use structured_additive_ir.Mapping.Expr.{MappingExpr, dim, none_expr}
use structured_additive_ir.Mapping.Attr
use structured_additive_ir.Mapping.Attr.{MappingAttr, get_identity, dependency_mask}

-- There are as many names as dimensions in the use domain.
pub record NamedMapping : Type 0 where
  pub names : List ℕ
  pub mapping : MappingAttr

unfoldable pub identity_of : List ℕ → NamedMapping
unfolding get_identity
identity_of names = record { names = names; mapping = get_identity (length names) (length names) }

-- The substitutions of `DropUnusedDims`: the used dimensions are numbered in order.
unfoldable pub substitutions : List Bool → ℕ → List MappingExpr
substitutions [] next = []
substitutions (true ∷ bits) next = dim next ∷ substitutions bits (next + 1)
substitutions (false ∷ bits) next = none_expr ∷ substitutions bits next

unfoldable pub used_names : List Bool → List ℕ → List ℕ
used_names [] names = []
used_names (used ∷ bits) [] = []
used_names (true ∷ bits) (name ∷ names) = name ∷ used_names bits names
used_names (false ∷ bits) (name ∷ names) = used_names bits names

unfoldable pub drop_unused_dims : NamedMapping → NamedMapping
unfolding substitutions used_names Attr.compose dependency_mask
drop_unused_dims n =
    let used_dims = dependency_mask n.mapping in
    let new_dim_names = used_names used_dims n.names in
    record {
      names = new_dim_names;
      mapping =
          Attr.compose
            (record {
              use_domain_size = length new_dim_names;
              dimensions = substitutions used_dims 0;
            })
            n.mapping;
    }

unfoldable pub compose : NamedMapping → MappingAttr → NamedMapping
unfolding Attr.compose
compose n other = record n { mapping = Attr.compose n.mapping other }
