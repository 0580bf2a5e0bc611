-- ===== src/Core/Dedup/Keys.antt =====
-- tflo-core/src/dedup.rs, `compose_key`: which keys of the store two sinks share.
use tflo.Prelude.{◌≡◌, ◌≢◌, [], ◌∷◌, ◌++◌, All, refl}
use tflo.Core.Dedup.{Bytes, colon, compose_key}

abbrev pub IsColonFree : Bytes → Type 0
IsColonFree namespace = All (λ b. b ≢ colon) namespace

-- Two namespaces without a colon and the bytes of two keys that compose to one key of the store are the
-- same namespace and the same bytes.
pub compose_key-injective :
    (n n' k k' : Bytes)
    → IsColonFree n
    → IsColonFree n'
    → compose_key n k ≡ compose_key n' k'
    → (n ≡ n') × (k ≡ k')
unfolding compose_key
compose_key-injective [] [] k k' f f' e = (refl, cc)
compose_key-injective [] (b ∷ n') k k' f f' e = absurd (f'.0 (cc))
compose_key-injective (b ∷ n) [] k k' f f' e = absurd (f.0 (cc))
compose_key-injective (b ∷ n) (b' ∷ n') k k' f f' e =
    let head : b ≡ b' = cc in
    let tail : n ++ (colon ∷ k) ≡ n' ++ (colon ∷ k') = cc in
    let (same, keys) = compose_key-injective n n' k k' f.1 f'.1 tail in (cc, keys)
