-- ===== src/Buffer/View.antt =====
-- libsponge/util/buffer.hh and buffer.cc: BufferViewList, the views that a system call is given. A
-- view is its bytes.
use tcp.Prelude.{
  ℕ, ◌-◌, ◌≡◌, ◌≤◌, refl, sym, ap, ◌∙◌, List, [], ◌∷◌, ◌++◌, Option, none, some, ltb, ◌==◌,
  if◌then◌else◌, length, drop, add64, arith, Bool-cases, inl, inr, ==→eq, ltb→lt, ltb→ge,
  length-append, drop-append_le, drop-append_ge,
}
use tcp.Buffer.{BufferList, str, concatenate}

abbrev pub BufferViewList : Type 0
BufferViewList = List (List ℕ)

-- `BufferViewList(const BufferList &)`
pub views : BufferList → BufferViewList
views [] = []
views (b ∷ bs) = str b ∷ views bs

-- `BufferViewList(std::string_view)`
abbrev pub views_of_string : List ℕ → BufferViewList
views_of_string s = s ∷ []

-- The loop of `remove_prefix`: each round ends it or drops the first view.
pub view_remove_prefix : BufferViewList → ℕ → Option BufferViewList
view_remove_prefix [] n = if n == 0 then some [] else none
view_remove_prefix (v ∷ vs) n =
    let rest = view_remove_prefix vs (n - length v) in
    if n == 0 then some (v ∷ vs) else if ltb n (length v) then some (drop n v ∷ vs) else rest

-- The loop of `size`, with the sum so far.
view_size_from : ℕ → BufferViewList → ℕ
view_size_from ret [] = ret
view_size_from ret (v ∷ vs) = view_size_from (add64 ret (length v)) vs

pub view_size : BufferViewList → ℕ
unfolding view_size_from
view_size vs = view_size_from 0 vs

-- `as_iovecs`: the bytes and the length of each view.
pub as_iovecs : BufferViewList → List (List ℕ × ℕ)
as_iovecs [] = []
as_iovecs (v ∷ vs) = (v, length v) ∷ as_iovecs vs

-- What a write of the views puts out.
abbrev pub joined : BufferViewList → List ℕ
joined [] = []
joined (v ∷ vs) = v ++ joined vs

pub joined-views : (bs : BufferList) → joined (views bs) ≡ concatenate bs
unfolding views concatenate
joined-views [] = refl
joined-views (b ∷ bs) = ap (◌++◌ (str b)) (joined-views bs)

-- After a partial write of `n` bytes, the views are the bytes that are left; nothing is thrown.
pub joined-view_remove_prefix :
    (vs : BufferViewList) (n : ℕ)
    → n ≤ length (joined vs)
    → (ws : BufferViewList) × (view_remove_prefix vs n ≡ some ws) × (joined ws ≡ drop n (joined vs))
unfolding view_remove_prefix
joined-view_remove_prefix [] n h = let z : n ≡ 0 = omega (arith, h) in ([], rw z refl, rw z refl)
joined-view_remove_prefix (v ∷ vs) n h = elim (Bool-cases (n == 0)) [
  | inl e ↦ (v ∷ vs, rw e refl, let z : n ≡ 0 = ==→eq n 0 e in rw z refl)
  | inr e ↦ elim (Bool-cases (ltb n (length v))) [
    | inl l ↦ (
      drop n v ∷ vs,
      rw (e, l) refl,
      sym (drop-append_le n v (joined vs) (omega (arith, ltb→lt n (length v) l))),
    )
    | inr g ↦
        let ge = ltb→ge n (length v) g in
        let (ws, e1, e2) =
          joined-view_remove_prefix vs (n - length v)
            (omega (arith, length-append v (joined vs), h)) in
        (ws, rw (e, g) e1, e2 ∙ sym (drop-append_ge n v (joined vs) ge))
  ]
]
