-- ===== src/TinyStack/Codes.antt =====
-- The protocol codes that the tables give: each layer's stay in the range that src/qp_tiny_stack.h
-- sets aside for it.
use qphi.Common.{
  ℕ, ◌≤◌, ◌≡◌, ◌⊎◌, inl, inr, List, [], ◌∷◌, arith, All, ◌==◌, if◌then◌else◌, Bool-cases, Bool,
  true, false, refl,
}
use qphi.TinyStack.Protos.{unknown, switch}
use qphi.TinyStack.Datalink.{ether_types, datalink_get_type}
use qphi.TinyStack.Network.{ip_protos, network_get_type}

-- What a `switch` returns is its default or the value of one of its cases.
switch-All :
    (P : ℕ → Type 0) (cases : List (ℕ × ℕ)) (default n : ℕ)
    → P default
    → All (λ (c, v). P v) cases
    → P (switch cases default n)
switch-All P [] default n d h = d
switch-All P ((c, v) ∷ cases) default n d h = elim (Bool-cases (n == c)) [
  | inl hit ↦ rw hit h.0
  | inr miss ↦ rw miss (switch-All P cases default n d h.1)
]

abbrev pub NetworkCode : ℕ → Type 0
NetworkCode c = (c ≡ unknown) ⊎ ((0x31 ≤ c) × (c ≤ 0xff))

abbrev pub TransmitCode : ℕ → Type 0
TransmitCode c = (c ≡ unknown) ⊎ ((0x0100 ≤ c) × (c ≤ 0xffff))

-- For every number, the protocol that the datalink table gives is the unknown one or lies between
-- 0x31 and 0xff, and the one that the network table gives is the unknown one or lies between 0x0100
-- and 0xffff: no code of one layer is taken for one of the other.
pub get_type-range : (n : ℕ) → NetworkCode (datalink_get_type n) × TransmitCode (network_get_type n)
unfolding datalink_get_type network_get_type
get_type-range n =
    let a : NetworkCode (switch ether_types unknown n) =
      switch-All NetworkCode ether_types unknown n (inl refl) (omega arith) in
    let b : TransmitCode (switch ip_protos unknown n) =
      switch-All TransmitCode ip_protos unknown n (inl refl) (omega arith) in
    (pick _ _ (switch ether_types unknown n) a, b)
  where
    pick :
        (a b : Bool) (c : ℕ)
        → NetworkCode c
        → NetworkCode (if a then unknown else if b then unknown else c)
    pick true b c h = inl refl
    pick false true c h = inl refl
    pick false false c h = h
