-- ===== src/App/Pipeline/Order.antt =====
-- The first module that does not pass decides.
use garcon.Prelude.{
  ◌≡◌, ◌↔◌, refl, ap, sym, ◌∙◌, List, [], ◌∷◌, ◌++◌, append_assoc, append-nil, All, arith, ok,
  >>=-eq-ok,
}
use garcon.Http.Header.{HeaderField}
use garcon.Http.Request.{Request}
use garcon.Http.Response.{Response, text}
use garcon.App.Pipeline.{
  ModuleResult, passed, responded, upgraded, failed, RequestModule, finalize_response,
  not_implemented, module_error, not_found, visit, handle_from, handle,
}

-- These modules pass the request on, and gather these fields.
pub data Passes (request : Request) : List RequestModule → List HeaderField → Type 0 where
  none_left : Passes request [] []
  passes :
      {m : RequestModule} {ms : List RequestModule} {hs gathered : List HeaderField}
      → m request ≡ ok (passed hs)
      → Passes request ms gathered
      → Passes request (m ∷ ms) (hs ++ gathered)

-- The response that a result other than a pass leads to, without the fields gathered before.
pub data Decides : ModuleResult → Response → List HeaderField → Type 0 where
  with_response : {r : Response} → Decides (responded r) r []
  with_upgrade : {hs : List HeaderField} → Decides (upgraded hs) not_implemented hs
  with_error : {hs : List HeaderField} → Decides (failed hs) module_error hs

-- Either all modules pass, and the answer is 404; or those in front pass, the next one decides, and
-- those behind it are not asked. The answer carries its own fields, then the pending ones, which
-- were gathered before, then the gathered ones.
pub data AnswersFrom (request : Request) (pending : List HeaderField) (ms : List RequestModule)
    (answer : Response) : Type 0 where
  unhandled :
      (gathered : List HeaderField)
      → Passes request ms gathered
      → answer ≡ record not_found { headers = not_found.headers ++ (pending ++ gathered) }
      → AnswersFrom request pending ms answer
  decided :
      (front : List RequestModule) (m : RequestModule) (back : List RequestModule)
      (gathered own : List HeaderField) (result : ModuleResult) (response : Response)
      → ms ≡ front ++ (m ∷ back)
      → Passes request front gathered
      → m request ≡ ok result
      → Decides result response own
      → answer ≡ record response { headers = response.headers ++ (pending ++ (gathered ++ own)) }
      → AnswersFrom request pending ms answer

abbrev pub Answers : Request → List RequestModule → Response → Type 0
Answers request ms answer = AnswersFrom request [] ms answer

handle_from_all :
    (request : Request) (pending : List HeaderField) {ms : List RequestModule}
    {gathered : List HeaderField}
    → Passes request ms gathered
    → handle_from pending ms request ≡ ok (finalize_response not_found (pending ++ gathered))
unfolding handle_from visit
handle_from_all request pending none_left = rw append-nil
handle_from_all request pending (passes {ms} {hs} {gathered} e p) =
    rw e
      (handle_from_all request (pending ++ hs) {ms = ms} {gathered = gathered} p ∙ rw append_assoc)

handle_from_decided :
    (request : Request) (pending : List HeaderField) {front : List RequestModule}
    {gathered : List HeaderField} (m : RequestModule) (back : List RequestModule)
    {result : ModuleResult} {response : Response} {own : List HeaderField}
    → Passes request front gathered
    → m request ≡ ok result
    → Decides result response own
    → handle_from pending (front ++ (m ∷ back)) request
      ≡ ok (finalize_response response (pending ++ (gathered ++ own)))
unfolding handle_from visit
handle_from_decided request pending m back none_left e with_response = rw (e, append-nil)
handle_from_decided request pending m back none_left e with_upgrade = rw e
handle_from_decided request pending m back none_left e with_error = rw e
handle_from_decided request pending m back (passes {ms} {hs} {gathered} f p) e d = rw f (
    handle_from_decided request (pending ++ hs) {front = ms} m back p e d
    ∙ rw (append_assoc, append_assoc))

AnswersFrom-passes :
    (request : Request) (pending hs : List HeaderField) (m : RequestModule)
    (ms : List RequestModule) (answer : Response)
    → m request ≡ ok (passed hs)
    → AnswersFrom request (pending ++ hs) ms answer
    → AnswersFrom request pending (m ∷ ms) answer
AnswersFrom-passes request pending hs m ms answer e (unhandled gathered p a) =
    unhandled (hs ++ gathered) (passes e p) (rw append_assoc at a)
AnswersFrom-passes request pending hs m ms answer e
      (decided front n back gathered own result response split p f d a) =
    decided (m ∷ front) n back (hs ++ gathered) own result response (ap (◌∷◌ m) split) (passes e p)
      f d
      (a
        ∙ ap (λ t. record response { headers = response.headers ++ t })
            (append_assoc pending hs (gathered ++ own)
              ∙ ap (λ t. pending ++ t) (sym (append_assoc hs gathered own))))

visit-AnswersFrom :
    (request : Request) (pending : List HeaderField) (m : RequestModule) (ms : List RequestModule)
    (answer : Response) (result : ModuleResult)
    → m request ≡ ok result
    → ((hs : List HeaderField)
        → handle_from (pending ++ hs) ms request ≡ ok answer
        → AnswersFrom request (pending ++ hs) ms answer)
    → visit pending (λ gathered. handle_from gathered ms request) result ≡ ok answer
    → AnswersFrom request pending (m ∷ ms) answer
unfolding visit finalize_response
visit-AnswersFrom request pending m ms answer (passed hs) e again h =
    AnswersFrom-passes request pending hs m ms answer e (again hs h)
visit-AnswersFrom request pending m ms answer (responded r) e again h =
    decided [] m ms [] [] (responded r) r refl none_left e with_response
      (rw append-nil (ground arith))
visit-AnswersFrom request pending m ms answer (upgraded hs) e again h =
    decided [] m ms [] hs (upgraded hs) not_implemented refl none_left e with_upgrade (ground arith)
visit-AnswersFrom request pending m ms answer (failed hs) e again h =
    decided [] m ms [] hs (failed hs) module_error refl none_left e with_error (ground arith)

handle_from-AnswersFrom :
    (ms : List RequestModule) (request : Request) (pending : List HeaderField) (answer : Response)
    → handle_from pending ms request ≡ ok answer
    → AnswersFrom request pending ms answer
unfolding handle_from finalize_response
handle_from-AnswersFrom [] request pending answer e =
    unhandled [] none_left (rw append-nil (ground arith))
handle_from-AnswersFrom (m ∷ ms) request pending answer e =
    let (result, asked, visited) = >>=-eq-ok (m request) _ e in
    visit-AnswersFrom request pending m ms answer result asked
      (λ hs. handle_from-AnswersFrom ms request (pending ++ hs) answer) visited

AnswersFrom-handle_from :
    (ms : List RequestModule) (request : Request) (pending : List HeaderField) (answer : Response)
    → AnswersFrom request pending ms answer
    → handle_from pending ms request ≡ ok answer
unfolding finalize_response
AnswersFrom-handle_from ms request pending answer (unhandled gathered p e) =
    rw e (handle_from_all request pending p)
AnswersFrom-handle_from ms request pending answer
      (decided front m back gathered own result response split p f d e) =
    rw (split, e) (handle_from_decided request pending m back p f d)

-- The pipeline answers a request with a response exactly when either every module passes, and it is
-- the 404 response with the fields of all the passes, in order; or the modules in front of some
-- module pass, that module responds, asks for an upgrade or fails, and it is that module's
-- response, or the 501 or 500 response, with the fields gathered in front and then its own. The
-- modules behind the deciding one have no say.
pub handle-Answers :
    (ms : List RequestModule) (request : Request) (answer : Response)
    → (handle ms request ≡ ok answer) ↔ Answers request ms answer
unfolding handle
handle-Answers ms request answer =
    (handle_from-AnswersFrom ms request [] answer, AnswersFrom-handle_from ms request [] answer)

-- Modules that return make the pipeline return.
handle_from_total :
    (ms : List RequestModule) (request : Request) (pending : List HeaderField)
    → All (λ m. (result : ModuleResult) × (m request ≡ ok result)) ms
    → (answer : Response) × (handle_from pending ms request ≡ ok answer)
unfolding handle_from visit
handle_from_total [] request pending v = (finalize_response not_found pending, refl)
handle_from_total (m ∷ ms) request pending ((result, e), v) =
    visited result e (λ hs. handle_from_total ms request (pending ++ hs) v)
  where
    visited :
        (result : ModuleResult)
        → m request ≡ ok result
        → ((hs : List HeaderField)
            → (answer : Response) × (handle_from (pending ++ hs) ms request ≡ ok answer))
        → (answer : Response) × (handle_from pending (m ∷ ms) request ≡ ok answer)
    visited (passed hs) e again = ((again hs).0, rw e (again hs).1)
    visited (responded r) e again = (finalize_response r pending, rw e)
    visited (upgraded hs) e again = (finalize_response not_implemented (pending ++ hs), rw e)
    visited (failed hs) e again = (finalize_response module_error (pending ++ hs), rw e)

pub handle_total :
    (ms : List RequestModule) (request : Request)
    → All (λ m. (result : ModuleResult) × (m request ≡ ok result)) ms
    → (answer : Response) × (handle ms request ≡ ok answer)
unfolding handle
handle_total ms request v = handle_from_total ms request [] v

-- What the first module responds is the answer, whatever modules stand behind it.
pub handle-responded :
    (m : RequestModule) (ms : List RequestModule) (request : Request) (r : Response)
    → m request ≡ ok (responded r)
    → r.headers ≡ []
    → handle (m ∷ ms) request ≡ ok r
unfolding handle handle_from visit finalize_response
handle-responded m ms request r e h = rw (handle_from, e, h) (ground arith)

-- And so is its failure.
pub handle-failed :
    (m : RequestModule) (ms : List RequestModule) (request : Request)
    → m request ≡ ok (failed [])
    → handle (m ∷ ms) request ≡ ok module_error
unfolding handle handle_from visit finalize_response text
handle-failed m ms request e = rw (handle_from, e) refl
