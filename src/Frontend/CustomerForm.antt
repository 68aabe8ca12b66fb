-- ===== src/Frontend/CustomerForm.antt =====
-- The form of frontend/src/views/CustomersView.vue, from the row that the API sends to the request
-- that it sends back.
use arka_erp.Base.{ℕ, ◌*◌, ◌/◌, ◌≡◌, refl, Option, none, some, [], if◌then◌else◌, or_else}
use arka_erp.Base.Int.{pos}
use arka_erp.Base.Texts.{Text, is_truthy}
use arka_erp.Base.Decimal.{decimal}
use arka_erp.Columns.{number_in}
use arka_erp.Envelope.{Cipher}
use arka_erp.Customers.{
  CustomerKind, company, Customer, CustomerView, Context, UpsertCustomerDto, view, edited,
}
use arka_erp.Frontend.Toman.{
  to_rial, to_toman, given, amount_text, whole_toman, amount-resaved, described,
}

pub record Form : Type 0 where
  pub kind : CustomerKind
  pub display_name : Text
  pub legal_name : Text
  pub email : Text
  pub phone : Text
  pub iban : Text
  pub tax_id : Text
  pub credit_limit : Text

abbrev pub blank : Form
blank = record {
  kind = company;
  display_name = [];
  legal_name = [];
  email = [];
  phone = [];
  iban = [];
  tax_id = [];
  credit_limit = [];
}

abbrev pub open_edit : CustomerView → Form
open_edit c = record {
  kind = c.kind;
  display_name = c.display_name;
  legal_name = or_else c.legal_name [];
  email = or_else c.email [];
  phone = or_else c.phone [];
  iban = [];
  tax_id = [];
  credit_limit = to_toman (amount_text c.credit_limit);
}

abbrev pub payload : Form → UpsertCustomerDto
payload form = record {
  code = none;
  kind = some form.kind;
  display_name = some form.display_name;
  legal_name = given form.legal_name;
  email = given form.email;
  phone = given form.phone;
  iban = given form.iban;
  tax_id = given form.tax_id;
  credit_limit = some (to_rial form.credit_limit);
}

-- What `save` sends, if it sends anything.
unfoldable pub save : Form → Option UpsertCustomerDto
save form = if is_truthy form.display_name then some (payload form) else none

-- The form saved as it was opened: where the database reads numbers as it writes them, the update
-- leaves the customer as it was, its envelopes too, and rounds its limit down to whole Toman.
pub edited-open_edit :
    (cipher : Cipher) (m : Context) (c : Customer) (x : ℕ)
    → ((n : ℕ) → m.numeric_in (decimal n) ≡ some (pos n))
    → c.credit_limit ≡ pos x
    → (number_in m.numeric_in (payload (open_edit (view c))).credit_limit
        ≡ some (some (whole_toman x)))
      × (edited cipher m (payload (open_edit (view c))) (some (whole_toman x)) c
          ≡ record c { credit_limit = whole_toman x })
edited-open_edit cipher m c x reads limit = (
  rw (limit, amount-resaved x, reads (x / 10 * 10), number_in) refl,
  rw (described c.legal_name, described c.email, described c.phone) refl,
)
