-- ===== src/App/Gui/Access.antt =====
-- Who may do what through the web interface of main.go.
use mathlib.Core.Path.{subst}
use p2p_tun.Prelude.{
  All, Bool, Bool-cases, List, [], arith, bytes_eq, false, if◌then◌else◌, inl, inr, or_false, refl,
  sym, true, ◌||◌, ◌∷◌, ◌≡◌,
}
use p2p_tun.App.Gui.{
  Gui, Request, Response, admits, handle_login, page, route, serve_all, serve_http, status,
  token_of, token_reply,
}
use p2p_tun.Text.{Text, text, text_eq, text_eq_iff}

-- The request carries the token, for the middleware or for the login.
abbrev pub knows : Text → Request → Bool
knows token r = text_eq (token_of r) token || text_eq r.login_token token

abbrev pub reveals : Response → Bool
reveals (token_reply t) = true
reveals _ = false

-- The request changed nothing, and its answer does not hold the token.
abbrev pub IsHarmless : Gui → Response × Gui → Type 0
IsHarmless g (answer, g') = (g' ≡ g) × (reveals answer ≡ false)

handle_login-IsHarmless :
    (r : Request) (g : Gui)
    → text_eq r.login_token g.gui_token ≡ false
    → IsHarmless g (handle_login r g)
unfolding handle_login
handle_login-IsHarmless r g h = elim (Bool-cases (text_eq r.method (text "POST"))) [
  | inl e ↦ (ground (arith, e, h), ground (arith, e, h))
  | inr e ↦ (ground (arith, e), ground (arith, e))
]

-- The main page is served by its own handler.
route_page : (r : Request) (g : Gui) → r.path ≡ text "/" → route r g ≡ (page, g)
unfolding route text_eq bytes_eq
route_page r g h = rw (route, h) refl

pick-IsHarmless :
    (g : Gui) (b : Bool) (x y : Response × Gui)
    → (b ≡ true → IsHarmless g x)
    → (b ≡ false → IsHarmless g y)
    → IsHarmless g (if b then x else y)
pick-IsHarmless g true x y h k = h refl
pick-IsHarmless g false x y h k = k refl

-- Past the middleware without the token, the path can only be that of the main page.
admitted-IsHarmless :
    (r : Request) (g : Gui)
    → text_eq (token_of r) g.gui_token ≡ false
    → text_eq r.path (text "/api/login") ≡ false
    → admits g.gui_token r ≡ true
    → IsHarmless g (route r g)
unfolding admits
admitted-IsHarmless r g h n a =
    let root : text_eq r.path (text "/") ≡ true = ground (arith, h, n, a) in
    subst (IsHarmless g) (sym (route_page r g ((text_eq_iff r.path (text "/")).0 root)))
      (refl, refl)

serve_http-IsHarmless :
    (r : Request) (g : Gui) → knows g.gui_token r ≡ false → IsHarmless g (serve_http r g)
unfolding serve_http
serve_http-IsHarmless r g h =
    let unknown =
      or_false (text_eq (token_of r) g.gui_token) (text_eq r.login_token g.gui_token) h in
    let behind : Response × Gui = if admits g.gui_token r then route r g else (status 401, g) in
    pick-IsHarmless g (text_eq r.path (text "/api/login")) (handle_login r g) behind
      (λ e. handle_login-IsHarmless r g unknown.1)
      (λ n.
        pick-IsHarmless g (admits g.gui_token r) (route r g) (status 401, g)
          (λ a. admitted-IsHarmless r g unknown.0 n a) (λ a. (refl, refl)))

abbrev pub answers : List Request → Gui → List Response
answers [] g = []
answers (r ∷ rs) g = (serve_http r g).0 ∷ answers rs (serve_http r g).1

-- Requests that carry the token nowhere, neither for the middleware nor in the body of a login, do
-- nothing, however many there are and whatever their paths: the program, its token and the tunnels
-- that wait are as before, and no answer holds the token.
pub strangers_do_nothing :
    (rs : List Request) (g : Gui)
    → All (λ r. knows g.gui_token r ≡ false) rs
    → (serve_all rs g ≡ g) × All (λ a. reveals a ≡ false) (answers rs g)
unfolding serve_all
strangers_do_nothing [] g w = (refl, tt)
strangers_do_nothing (r ∷ rs) g w =
    let (same, hidden) = serve_http-IsHarmless r g w.0 in
    let (all_same, all_hidden) = strangers_do_nothing rs g w.1 in
    rw same (all_same, (hidden, all_hidden))
